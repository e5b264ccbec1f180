-- ===== src/Collector/Run/Errors.antt =====
-- collector/run.py: what a run leaves of the dump.
use terminal_status_panel.Base.{ℕ, ◌≡◌, ap, ◌⊎◌, inl, inr, Bool, Option, some}
use terminal_status_panel.Base.Dict.{lookup}
use terminal_status_panel.StateFile.{Json, Floats}
use terminal_status_panel.Collector.Vrrp.{Dump, absent}
use terminal_status_panel.Collector.Vrrp.Removal.{remove_dump_gone}
use terminal_status_panel.Collector.Run.{Sources, vrrp_answer, or_cleanup, run}

module _ {Real : Type 0} (floats : Floats Real) (as_int : Real → Option ℕ) (s : Sources Real) where
  -- Whatever the sources return or raise, whether VRRP is enabled, and whatever the dump holds: a run
  -- ends with a state, and the dump is gone by then or the state says so with the code `cleanup`.
  pub run-cleans :
      (stuck stuck_after : Bool) (dump : Dump Real) (file : Option (Json Real))
      → let (state, dump') = run floats as_int s stuck stuck_after dump file in
        (dump' ≡ absent) ⊎ (lookup "vrrp" state.errors ≡ some (some "cleanup"))
  unfolding run lookup
  run-cleans stuck stuck_after dump file = elim (remove_dump_gone stuck_after _) [
    | inl gone ↦ inl gone
    | inr failure ↦
        inr (ap (λ f. some (or_cleanup f (vrrp_answer floats as_int s stuck dump).0.1)) failure)
  ]
