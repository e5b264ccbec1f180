-- ===== src/Collector/Vrrp/Removal.antt =====
-- collector/vrrp.py: the dump, which holds a password, does not stay in silence.
use terminal_status_panel.Base.{
  ◌≡◌, refl, ◌⊎◌, inl, inr, Bool, true, false, Option, none, some, List, String,
}
use terminal_status_panel.StateFile.{VrrpInstance, VrrpState}
use terminal_status_panel.Collector.Vrrp.{Shaped, type_error, Dump, absent, remove_dump}

module _ {Real : Type 0} where
  -- The dump is gone, or the error code says that it could not be removed.
  abbrev pub Accounted : Option (Option VrrpState × Option String) × Dump Real → Type 0
  Accounted (answer, dump) =
      (dump ≡ absent) ⊎ ((state : Option VrrpState) × (answer ≡ some (state, some "cleanup")))

  -- A removal that says nothing leaves no dump.
  pub remove_dump_gone :
      (stuck : Bool) (dump : Dump Real)
      → ((remove_dump stuck dump).1 ≡ absent) ⊎ ((remove_dump stuck dump).0 ≡ some "cleanup")
  unfolding remove_dump
  remove_dump_gone true dump = inr refl
  remove_dump_gone false dump = inl refl

  -- How the collection ends, for what the dump was parsed to.
  abbrev Ends :
      Dump Real
      → Shaped (List VrrpInstance)
      → Option (Option VrrpState × Option String) × Dump Real
      → Type 0
  Ends dump parsed r = Accounted r ⊎ ((parsed ≡ type_error) × (r ≡ (none, dump)))
