-- ===== src/Backend.antt =====
-- service.rs, the configuration: what a port may be backed by, its validation and its one-line
-- description, and how a route matches a request.
mod Tests
pub mod Validation
pub mod Matching
use ig.Base.{
  ℕ, ◌≡◌, Bool, true, false, not, Option, none, some, List, [], ◌∷◌, ◌++◌, ◌==◌, if◌then◌else◌,
  is_empty, length, contains, unwrap_or,
}
use ig.Base.Text.{Text, text, text_eq, decimal, before, rsplit_once, starts_with}
use ig.Failure.{Error, Result, ok, err, fail, invalid, ◌>>◌, with_context}

pub record Route : Type 0 where
  pub host : Option Text
  pub prefix : Option Text
  pub upstream : Option Text
  pub unix : Option Text
  pub tls : Bool
  pub sni : Option Text
  pub strip_prefix : Bool
  pub host_header : Option Text

pub data BackendSpec : Type 0 where
  http : List Route → BackendSpec
  tcp : Text → BackendSpec
  unix : Text → BackendSpec

unfoldable pub plural_routes : ℕ → Text
plural_routes n =
    text "http (" ++ decimal n ++ text " route" ++ (if n == 1 then [] else text "s") ++ text ")"

unfoldable pub describe : BackendSpec → Text
unfolding plural_routes
describe (http routes) = plural_routes (length routes)
describe (tcp upstream) = text "tcp " ++ upstream
describe (unix path) = text "unix " ++ path

-- The match on `(&self.upstream, &self.unix)`, by clauses.
target_valid : Option Text → Option Text → Result (Unit {0})
target_valid (some u) none =
    if is_empty u then err (fail invalid (text "route has an empty upstream")) else ok tt
target_valid none (some path) = ok tt
target_valid none none = err (fail invalid (text "route needs `upstream` or `unix`"))
target_valid (some u) (some path) =
    err (fail invalid (text "route sets both `upstream` and `unix`"))

pub route_validate : Route → Result (Unit {0})
unfolding target_valid
route_validate r = target_valid r.upstream r.unix

routes_validate : ℕ → List Route → Result (Unit {0})
routes_validate port [] = ok tt
routes_validate port (r ∷ routes) =
    with_context (text "http service on port " ++ decimal port) (route_validate r)
    >> routes_validate port routes

unfoldable pub validate : BackendSpec → ℕ → Result (Unit {0})
unfolding route_validate routes_validate
validate (http routes) port =
    if is_empty routes
    then err (fail invalid (text "http service on port " ++ decimal port ++ text " has no routes"))
    else routes_validate port routes
validate (tcp upstream) port =
    if is_empty upstream
    then err (
        fail invalid (text "tcp service on port " ++ decimal port ++ text " has an empty upstream"))
    else ok tt
validate (unix path) port =
    if is_empty path
    then err
        (fail invalid (text "unix service on port " ++ decimal port ++ text " has an empty path"))
    else ok tt

-- `Some((head, tail)) if !tail.contains(']') => head, _ => upstream`.
host_part : Text → Option (Text × Text) → Text
host_part upstream none = upstream
host_part upstream (some (head, tail)) = if contains tail b']' then upstream else head

known_by : Option Text → Option Text → Text
unfolding host_part
known_by (some upstream) sni = host_part upstream (rsplit_once b':' upstream)
known_by none sni = unwrap_or sni (text "localhost")

unfoldable pub upstream_host : Route → Text
unfolding known_by
upstream_host r = known_by r.upstream r.sni

host_matches : Option Text → Option Text → Bool
host_matches none host = true
host_matches (some want) none = false
host_matches (some want) (some h) = text_eq (before b':' h) want

prefix_matches : Option Text → Text → Bool
prefix_matches none path = true
prefix_matches (some prefix) path = starts_with path prefix

unfoldable pub matches : Route → Option Text → Text → Bool
unfolding host_matches prefix_matches
matches r host path =
    if not (host_matches r.host host)
    then false
    else if not (prefix_matches r.prefix path)
    then false
    else true
