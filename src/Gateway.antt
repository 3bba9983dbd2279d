-- ===== src/Gateway.antt =====
-- service.rs, the reverse proxy of a port: which route takes a request, where it goes, and how its
-- path and Host header are rewritten. Resolving names, parsing a target and the proxy library that
-- calls these hooks are arguments.
pub mod Routing
pub mod Cache
pub mod Rewriting
mod Tests
use ig.Base.{
  ℕ, suc, ◌-◌, ◌≡◌, Bool, true, false, Option, none, some, List, [], ◌∷◌, ◌++◌, if◌then◌else◌, ltb,
  get_elem?, unwrap_or,
}
use ig.Base.Text.{Text, text, text_eq, starts_with, strip_prefix}
use ig.Backend.{Route, matches, upstream_host}
use ig.Service.{Gateway}

position : List Route → Option Text → Text → Option ℕ
position [] host path = none
position (r ∷ routes) host path =
    if matches r host path then some 0 else after (position routes host path)
  where
    after : Option ℕ → Option ℕ
    after none = none
    after (some i) = some (suc i)

unfoldable pub pick : Gateway → Option Text → Text → Option ℕ
unfolding position
pick g host path = position g.routes host path

-- The route of a request, by the index that was picked for it.
unfoldable pub route : Gateway → Option ℕ → Option Route
route g none = none
route g (some i) = get_elem? g.routes i

-- What the filter decides: the request goes on with a route, or is answered with a status.
pub data Filtered : Type 0 where
  goes_on : ℕ → Filtered
  answered : ℕ → Filtered

filtered : Option ℕ → Filtered
filtered (some index) = goes_on index
filtered none = answered 404

unfoldable pub request_filter : Gateway → Option Text → Text → Filtered
unfolding filtered
request_filter g host path = filtered (pick g host path)

-- How long a resolved address is reused, in seconds.
abbrev pub dns_ttl : ℕ
dns_ttl = 5

-- An address, and when it was looked up.
pub record Answer : Type 0 where
  pub addr : Text
  pub at : ℕ

abbrev pub Resolved : Type 0
Resolved = List (Text × Answer)

unfoldable pub find_answer : Text → Resolved → Option Answer
find_answer name [] = none
find_answer name ((n, a) ∷ resolved) = if text_eq n name then some a else find_answer name resolved

unfoldable pub put_answer : Text → Answer → Resolved → Resolved
put_answer name a [] = (name, a) ∷ []
put_answer name a ((n, b) ∷ resolved) =
    if text_eq n name then (n, a) ∷ resolved else (n, b) ∷ put_answer name a resolved

recent : ℕ → Option Answer → Option Text
recent now none = none
recent now (some a) = if ltb (now - a.at) dns_ttl then some a.addr else none

unfoldable pub cached : Text → ℕ → Resolved → Option Text
unfolding recent
cached upstream now resolved = recent now (find_answer upstream resolved)

-- What the resolver of this machine answers: `none` where it fails.
looked_up : Text → ℕ → Option (List Text) → Resolved → Resolved × Option Text
looked_up upstream now none resolved = (resolved, none)
looked_up upstream now (some []) resolved = (resolved, none)
looked_up upstream now (some (addr ∷ others)) resolved =
    (put_answer upstream (record { addr = addr; at = now }) resolved, some addr)

reuse : Option Text → Resolved → Resolved × Option Text → Resolved × Option Text
reuse (some addr) resolved rest = (resolved, some addr)
reuse none resolved rest = rest

-- `lookup` is the answer to a lookup that is made now. `none` is a proxy error.
unfoldable pub resolve : (Text → Option (List Text)) → Text → ℕ → Resolved → Resolved × Option Text
unfolding looked_up reuse
resolve lookup upstream now resolved =
    reuse (cached upstream now resolved) resolved
      (looked_up upstream now (lookup upstream) resolved)

-- Where a request is sent.
pub data Upstream : Type 0 where
  socket : Text → Bool → Text → Upstream
  address : Text → Bool → Text → Upstream

at_address : Bool → Text → Resolved × Option Text → Resolved × Option Upstream
at_address tls sni (resolved, none) = (resolved, none)
at_address tls sni (resolved, some addr) = (resolved, some (address addr tls sni))

sent_to :
    (Text → Option (List Text))
    → Option Text
    → Option Text
    → Bool
    → Text
    → ℕ
    → Resolved
    → Resolved × Option Upstream
unfolding at_address
sent_to lookup (some path) upstream tls sni now resolved = (resolved, some (socket path tls sni))
sent_to lookup none none tls sni now resolved = (resolved, none)
sent_to lookup none (some upstream) tls sni now resolved =
    at_address tls sni (resolve lookup upstream now resolved)

-- For the route that was picked. A route with neither target, on which the source panics, is
-- refused by `validate` before it gets here; so is the default of `none`.
unfoldable pub upstream_peer :
    (Text → Option (List Text)) → Route → ℕ → Resolved → Resolved × Option Upstream
unfolding sent_to
upstream_peer lookup r now resolved =
    sent_to lookup r.unix r.upstream r.tls (unwrap_or r.sni (upstream_host r)) now resolved

-- The target of a request: its path and its query.
pub record Uri : Type 0 where
  pub path : Text
  pub query : Option Text

absolute : Text → Text
absolute rest = if starts_with rest (text "/") then rest else text "/" ++ rest

with_query : Text → Option Text → Text
with_query rest none = rest
with_query rest (some q) = rest ++ (text "?" ++ q)

pub stripped_path : Text → Text → Text
unfolding absolute
stripped_path prefix path = absolute (unwrap_or (strip_prefix path prefix) path)

set_uri : Uri → Option Uri → Uri
set_uri uri none = uri
set_uri uri (some u) = u

strip : (Text → Option Uri) → Bool → Option Text → Uri → Uri
unfolding with_query set_uri
strip parse true (some prefix) uri =
    set_uri uri (parse (with_query (stripped_path prefix uri.path) uri.query))
strip parse true none uri = uri
strip parse false prefix uri = uri

rewritten : (Text → Option Uri) → Option Route → Uri → Uri × Option Text
unfolding strip
rewritten parse none uri = (uri, none)
rewritten parse (some r) uri =
    (strip parse r.strip_prefix r.prefix uri, some (unwrap_or r.host_header (upstream_host r)))

-- The target that is sent upstream, and the Host header, if one is put in. A host that is no header
-- value, which the library refuses, is not told apart.
unfoldable pub upstream_request_filter :
    (Text → Option Uri) → Gateway → Option ℕ → Uri → Uri × Option Text
unfolding rewritten
upstream_request_filter parse g picked uri = rewritten parse (route g picked) uri
