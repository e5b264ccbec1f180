-- ===== src/Traefik.antt =====
-- src/terminal_status_panel/collectors/traefik_parse.py: entrypoints from the arguments, and routers,
-- middlewares and services from the labels of one Docker service. `fold` is what `re.IGNORECASE`
-- compares of a character, and `int10` is `int` of a text without a minus sign. A label key holds no
-- line break.
pub mod Entrypoints
pub mod Routers
mod Api
mod Tests
use Prim.Native.Char.{code}
use terminal_status_panel.Base.{
  ℕ, ◌==◌, Bool, true, false, not, ◌&&◌, ◌||◌, Option, none, some, List, [], ◌∷◌, map, filter,
  String, ◌<>◌, is_empty, nonempty, strip, before, after, after_last, has_char, split_on, mem,
  str_eq, text_leb, lower_is, contains, if◌then◌else◌,
}
use terminal_status_panel.Base.Dict.{lookup, update}
use terminal_status_panel.Base.Sorting.{sort}

pub record TraefikEntrypoint : Type 0 where
  pub name : String
  pub address : String
  pub port : Option ℕ

pub record TraefikMiddleware : Type 0 where
  pub name : String
  pub kind : Option String
  pub detail : Option String

pub record TraefikServiceRef : Type 0 where
  pub name : String
  pub port : Option ℕ
  pub scheme : Option String
  pub docker_service : Option String
  pub source : String
  pub upstreams : List String

pub record TraefikRouter : Type 0 where
  pub name : String
  pub entrypoints : List String
  pub rule : Option String
  pub middlewares : List String
  pub service : Option String
  pub tls : Bool
  pub source : String
  pub origin : Option String
  pub rejected : Option Bool

-- `_csv`
pub csv : String → List String
csv value = filter (λ part. not (is_empty part)) (map strip (split_on b',' value))

-- `key.lower().endswith(t)`, for a text `t` as `lower_is` takes it.
pub lower_ends : String → String → Bool
lower_ends String.[] t = lower_is "" t
lower_ends (String.◌∷◌ c s) t = lower_is (String.◌∷◌ c s) t || lower_ends s t

-- `_apply_router_label`
pub apply_router_label : TraefikRouter → String → String → TraefikRouter
apply_router_label router key value =
    if lower_is key "entrypoints"
    then record router { entrypoints = csv value }
    else if lower_is key "rule"
    then record router { rule = some value }
    else if lower_is key "middlewares"
    then record router { middlewares = csv value }
    else if lower_is key "service"
    then record router { service = some value }
    else if lower_is key "tls"
    then record router { tls = lower_is value "true" }
    else router

abbrev pub new_router : String → String → TraefikRouter
new_router name origin = record {
  name = name;
  entrypoints = [];
  rule = none;
  middlewares = [];
  service = none;
  tls = false;
  source = "swarm";
  origin = some origin;
  rejected = none;
}

-- `{{` stands in the text: `is_templated`.
pub is_templated : String → Bool
is_templated text = contains "{{" text

abbrev service_or : Option String → String → String
service_or none name = name
service_or (some service) name = service

-- Traefik's default for a router's service.
abbrev pub with_service : TraefikRouter → TraefikRouter
with_service r = record r { service = some (service_or r.service r.name) }

-- What the labels declare, each under its name.
pub record Wiring : Type 0 where
  pub routers : List (String × TraefikRouter)
  pub middlewares : List (String × TraefikMiddleware)
  pub services : List (String × TraefikServiceRef)

abbrev pub no_wiring : Wiring
no_wiring = record { routers = []; middlewares = []; services = [] }

abbrev pub or_new : {A : Type 0} → A → Option A → A
or_new new none = new
or_new new (some old) = old

module _ (fold : ℕ → ℕ) where
  -- What follows a prefix, whatever the case of the two.
  pub strip_prefix : String → String → Option String
  strip_prefix String.[] s = some s
  strip_prefix (String.◌∷◌ p ps) String.[] = none
  strip_prefix (String.◌∷◌ p ps) (String.◌∷◌ c s) =
      let rest = strip_prefix ps s in if fold (code p) == fold (code c) then rest else none

  -- `([^.]+)\.` and what follows it, which is not empty.
  abbrev pub dotted : String → Option (String × String)
  dotted s =
      if has_char b'.' s && not (is_empty (before b'.' s)) && not (is_empty (after b'.' s))
      then some (before b'.' s, after b'.' s)
      else none

  abbrev pub dotted_after : Option String → Option (String × String)
  dotted_after none = none
  dotted_after (some s) = dotted s

  -- The name and the key of a match of `_ROUTER` and of `_SERVICE`.
  pub match_router : String → Option (String × String)
  match_router key = dotted_after (strip_prefix "traefik.http.routers." key)

  pub match_service : String → Option (String × String)
  match_service key = dotted_after (strip_prefix "traefik.http.services." key)

  abbrev with_kind : Option (String × String) → Option (String × (String × String))
  with_kind none = none
  with_kind (some (name, rest)) = elim (dotted rest) [
    | none ↦ none
    | some (kind, key) ↦ some (name, (kind, key))
  ]

  -- The name, the kind and the key of a match of `_MIDDLEWARE`.
  pub match_middleware : String → Option (String × (String × String))
  match_middleware key = with_kind (dotted_after (strip_prefix "traefik.http.middlewares." key))

  abbrev address_of : Option String → Option String
  address_of none = none
  address_of (some address) =
      if is_empty address || has_char b'\n' address then none else some address

  abbrev named_address : Option (String × String) → Option (String × String)
  named_address none = none
  named_address (some (name, rest)) = elim (address_of (strip_prefix "address=" rest)) [
    | none ↦ none
    | some address ↦ some (name, address)
  ]

  -- The name and the address of a match of `_ENTRYPOINT_ADDRESS`.
  pub match_entrypoint : String → Option (String × String)
  match_entrypoint arg = named_address (dotted_after (strip_prefix "--entrypoints." (strip arg)))

  -- `parse_ping_entrypoint`
  pub parse_ping_entrypoint : List String → Option String
  parse_ping_entrypoint [] = none
  parse_ping_entrypoint (arg ∷ args) =
      elim (address_of (strip_prefix "--ping.entrypoint=" (strip arg))) [
        | none ↦ parse_ping_entrypoint args
        | some name ↦ nonempty (some (strip name))
      ]

  module _ (int10 : String → Option ℕ) where
    -- `port_of`
    pub port_of : String → Option ℕ
    port_of address = int10 (after_last ":" address)

    abbrev pub add_entrypoint :
        Option (String × String)
        → List String
        → (List String → List TraefikEntrypoint)
        → List TraefikEntrypoint
    add_entrypoint none seen rest = rest seen
    add_entrypoint (some (name, address)) seen rest =
        if mem name seen
        then rest seen
        else record { name = name; address = address; port = port_of address } ∷ rest (name ∷ seen)

    -- The loop of `parse_entrypoints`, with the names seen so far.
    pub entrypoints_from : List String → List String → List TraefikEntrypoint
    entrypoints_from [] seen = []
    entrypoints_from (arg ∷ args) seen =
        add_entrypoint (match_entrypoint arg) seen (entrypoints_from args)

    pub parse_entrypoints : List String → List TraefikEntrypoint
    parse_entrypoints args = entrypoints_from args []

    -- `_apply_service_label`
    pub apply_service_label : TraefikServiceRef → String → String → TraefikServiceRef
    apply_service_label service key value =
        if lower_ends key "server.port"
        then record service { port = int10 value }
        else if lower_ends key "server.scheme"
        then record service { scheme = some value }
        else service

    module _ (origin docker_name : String) where
      abbrev new_service : String → TraefikServiceRef
      new_service name = record {
        name = name;
        port = none;
        scheme = none;
        docker_service = some docker_name;
        source = "swarm";
        upstreams = [];
      }

      abbrev pub add_router : String → String → String → Wiring → Wiring
      add_router name key value w = record w {
        routers =
            update name (λ old. apply_router_label (or_new (new_router name origin) old) key value)
              w.routers;
      }

      abbrev pub add_middleware : String → String → String → String → Wiring → Wiring
      add_middleware name kind key value w = record w {
        middlewares =
            update name
              (λ old.
                or_new
                  (record { name = name; kind = some kind; detail = some (key <> "=" <> value) })
                  old)
              w.middlewares;
      }

      abbrev pub add_service : String → String → String → Wiring → Wiring
      add_service name key value w = record w {
        services =
            update name (λ old. apply_service_label (or_new (new_service name) old) key value)
              w.services;
      }

      abbrev pub apply_match :
          Option (String × String)
          → Option (String × (String × String))
          → Option (String × String)
          → String
          → Wiring
          → Wiring
      apply_match (some (name, field)) m s value w = add_router name field value w
      apply_match none (some (name, (kind, field))) s value w =
          add_middleware name kind field value w
      apply_match none none (some (name, field)) value w = add_service name field value w
      apply_match none none none value w = w

      -- A round of the loop over the labels.
      pub add_label : String × String → Wiring → Wiring
      add_label (key, value) w =
          apply_match (match_router key) (match_middleware key) (match_service key) value w

      pub add_labels : List (String × String) → Wiring → Wiring
      add_labels [] w = w
      add_labels (label ∷ labels) w = add_labels labels (add_label label w)

      -- `parse_labels`
      pub parse_labels :
          List (String × String)
          → List TraefikRouter
            × (List (String × TraefikMiddleware) × List (String × TraefikServiceRef))
      parse_labels labels =
          let w = add_labels (sort (λ a b. text_leb a.0 b.0) labels) no_wiring in
          (
            map (λ entry. with_service entry.1) (sort (λ a b. text_leb a.0 b.0) w.routers),
            (w.middlewares, w.services),
          )
