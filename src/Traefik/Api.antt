-- ===== src/Traefik/Api.antt =====
-- collectors/traefik_parse.py, `parse_api_rawdata`: the routers that Traefik did not report as rejected.
use terminal_status_panel.Base.{
  Bool, false, not, Option, none, some, List, [], ◌∷◌, String, str_eq, before, if◌then◌else◌,
}
use terminal_status_panel.StateFile.{Json, text, object, Fields, no_field, field, get}

module _ {Real : Type 0} where
  abbrev is_enabled : Json Real → Bool
  is_enabled (text s) = str_eq s "enabled"
  is_enabled _ = false

  -- Traefik reported a status other than `enabled`.
  pub is_rejected : Json Real → Bool
  is_rejected (object fs) = elim (get "status" fs) [ none ↦ false | some v ↦ not (is_enabled v) ]
  is_rejected _ = false

  pub accepted_names : Fields Real → List String
  accepted_names no_field = []
  accepted_names (field name spec more) =
      let names = accepted_names more in
      if is_rejected spec then names else before b'@' name ∷ names

  abbrev in_routers : Option (Json Real) → List String
  in_routers (some (object fs)) = accepted_names fs
  in_routers _ = []

  -- `parse_api_rawdata`: the set as a list of its members.
  pub parse_api_rawdata : Json Real → List String
  parse_api_rawdata (object fs) = in_routers (get "routers" fs)
  parse_api_rawdata _ = []
