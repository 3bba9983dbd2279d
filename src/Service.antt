-- ===== src/Service.antt =====
-- service.rs, the registry: which backend each port was declared with, and what serves a port.
mod Tests
pub mod Registry
pub mod Files
pub mod Addresses
pub mod Serving
use ig.Base.{
  ℕ, ◌≡◌, Bool, true, false, Option, none, some, List, [], ◌∷◌, ◌++◌, ◌==◌, if◌then◌else◌, length,
  sort, Distinct,
}
use ig.Base.Map.{Map, get, insert, keys, contains_key, to_btree, map_values}
use ig.Base.Map
use ig.Base.Text.{Text, text, decimal}
use ig.Failure.{Error, Result, ok, err, fail, invalid, ◌>>=◌, ◌>>◌}
use ig.Backend.{BackendSpec, Route, validate}

-- An address by its printed form.
pub data IpAddr : Type 0 where
  v4 v6 : Text → IpAddr

display : IpAddr → Text
display (v4 address) = address
display (v6 address) = address

-- `SocketAddr::new(host, port).to_string()`: an IPv6 address is bracketed.
pub socket_addr : IpAddr → ℕ → Text
socket_addr (v4 address) port = address ++ text ":" ++ decimal port
socket_addr (v6 address) port = text "[" ++ address ++ text "]:" ++ decimal port

-- The reverse proxy of a port, without its cache of resolved names.
pub record Gateway : Type 0 where
  pub port : ℕ
  pub routes : List Route

-- What is built from a spec.
pub data Backend : Type 0 where
  http : Gateway → ℕ → Backend
  tcp unix : Text → Backend

describe_backend : Backend → Text
describe_backend (http gateway routes) =
    text "http ("
    ++ decimal routes
    ++ text " route"
    ++ (if routes == 1 then [] else text "s")
    ++ text ")"
describe_backend (tcp upstream) = text "tcp " ++ upstream
describe_backend (unix path) = text "unix " ++ path

pub record Declared : Type 0 where
  pub spec : BackendSpec
  pub backend : Backend

pub record Services : Type 0 where
  pub backends : Map Declared
  pub host : IpAddr

abbrev pub new : IpAddr → Services
new host = record { backends = []; host = host }

abbrev pub built : ℕ → BackendSpec → Backend
built port (BackendSpec.http routes) =
    Backend.http (record { port = port; routes = routes }) (length routes)
built port (BackendSpec.tcp upstream) = Backend.tcp upstream
built port (BackendSpec.unix path) = Backend.unix path

unfoldable pub build : ℕ → BackendSpec → Result Backend
build port spec = do validate spec port; ok (built port spec)

unfoldable pub register : Services → ℕ → BackendSpec → Result Services
unfolding build
register s port spec = do
  backend ← build port spec
  ok (record s { backends = insert port (record { spec = spec; backend = backend }) s.backends })

unfoldable pub contains : Services → ℕ → Bool
contains s port = contains_key port s.backends

unfoldable pub register_new : Services → ℕ → BackendSpec → Result Services
unfolding contains register
register_new s port spec =
    if contains s port
    then err (fail invalid (text "two services both claim port " ++ decimal port))
    else register s port spec

unfoldable pub snapshot : Services → Map BackendSpec
snapshot s = to_btree (map_values (λ d. d.spec) s.backends)

-- The state after, and whether there was something to remove.
unfoldable pub remove : Services → ℕ → Services × Bool
remove s port = (record s { backends = Map.remove port s.backends }, contains_key port s.backends)

unfoldable pub ports : Services → List ℕ
ports s = sort (keys s.backends)

serving : Services → ℕ → Option Declared → Backend
serving s port none = tcp (socket_addr s.host port)
serving s port (some d) = d.backend

unfoldable pub backend : Services → ℕ → Backend
unfolding serving socket_addr
backend s port = serving s port (get port s.backends)

describe_declared : Services → ℕ → Option Declared → Text
describe_declared s port none = text "default " ++ display s.host ++ text ":" ++ decimal port
describe_declared s port (some d) = describe_backend d.backend

unfoldable pub describe : Services → ℕ → Text
unfolding describe_declared describe_backend display
describe s port = describe_declared s port (get port s.backends)

-- Every entry was validated, and its backend is the one built from its spec.
abbrev Entries : Map Declared → Type 0
Entries [] = Unit {0}
Entries ((port, d) ∷ m) =
    (validate d.spec port ≡ ok tt) × (d.backend ≡ built port d.spec) × Entries m

pub record IsValid (s : Services) : Type 0 where
  pub one_entry : Distinct (keys s.backends)
  pub entries : Entries s.backends
