-- ===== src/Model/Health.antt =====
-- src/terminal_status_panel/model/health.py
use terminal_status_panel.Base.{ℕ, Bool, false, Option, none, some, List, String, ◌&&◌, ltb, ◌==◌}

pub record ClusterMember : Type 0 where
  pub name : String
  pub node : Option String
  pub role : Option String
  pub healthy : Option Bool
  pub detail : Option String
  pub warning : Option String
  pub lag_bytes : Option ℕ

pub record ClusterService : Type 0 where
  pub kind : String
  pub name : Option String
  pub applicable : Bool
  pub reachable : Bool
  pub leader : Option String
  pub quorum_ok : Option Bool
  pub detail : Option String
  pub members : List ClusterMember
  pub error : Option String

pub record PeerReachability : Type 0 where
  pub name : String
  pub method : String
  pub ok : Bool
  pub detail : Option String
  pub rx_bytes : Option ℕ
  pub tx_bytes : Option ℕ
  pub endpoint : Option String
  pub family : Option String

abbrev sends_only : Option ℕ → Option ℕ → Bool
sends_only none tx = false
sends_only (some rx) none = false
sends_only (some rx) (some tx) = ltb 0 tx && rx == 0

unfoldable pub one_way : PeerReachability → Bool
one_way p = sends_only p.rx_bytes p.tx_bytes
