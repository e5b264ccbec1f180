-- ===== src/Traefik/Tests.antt =====
-- collectors/traefik_parse.py on two entrypoints and on a router's labels.
use terminal_status_panel.Base.{
  ℕ, ◌+◌, ◌≡◌, true, ◌&&◌, Option, none, some, List, [], ◌∷◌, any, All, String, mem, ltb, str_eq,
  is_some, distinct, if◌then◌else◌,
}
use terminal_status_panel.Traefik.{parse_entrypoints, parse_labels}
use terminal_status_panel.Traefik.Entrypoints.{names, declares, parse_entrypoints-names}
use terminal_status_panel.Traefik.Routers.{declares as labelled, parse_labels-routers}

abbrev lowered : ℕ → ℕ
lowered c = if ltb 64 c && ltb c 91 then c + 32 else c

abbrev port_443 : String → Option ℕ
port_443 s = if str_eq s "443" then some 443 else none

abbrev arguments : List String
arguments =
    "--entryPoints.https.address=:443" ∷ "--ping=true" ∷ "--entrypoints.https.address=:444" ∷ []

parse_entrypoints-names_example :
    (mem "https" (names (parse_entrypoints lowered port_443 arguments))
      ≡ any (declares lowered port_443 "https") arguments)
    × (distinct (names (parse_entrypoints lowered port_443 arguments)) ≡ true)
parse_entrypoints-names_example = parse_entrypoints-names lowered port_443 arguments "https"

abbrev labels : List (String × String)
labels =
    ("traefik.http.routers.api.rule", "Host(`a`)") ∷ ("traefik.HTTP.routers.api.tls", "True") ∷ []

parse_labels-routers_example :
    (any (λ r. str_eq r.name "api") ((parse_labels lowered port_443 "demo_api" "demo_api" labels).0)
      ≡ any (labelled lowered port_443 "demo_api" "demo_api" "api") labels)
    × All
        (λ r. (is_some r.service ≡ true))
        ((parse_labels lowered port_443 "demo_api" "demo_api" labels).0)
parse_labels-routers_example =
    parse_labels-routers lowered port_443 "demo_api" "demo_api" labels "api"
