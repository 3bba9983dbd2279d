-- ===== src/Service/Registry.antt =====
-- The registry of service.rs: what a declaration changes, and what stays.
use ig.Base.{
  ℕ, ◌≡◌, refl, Option, none, some, [], ◌∷◌, ◌==◌, arith, if◌then◌else◌, Above, ◌∙◌, Option-cases,
  inl, inr,
}
use ig.Base.Map.{
  Map, get, insert, keys, contains_key, to_btree, map_values, get-insert, get-remove, get-to_btree,
  get-map_values, map_option, keys-insert-Distinct, keys-remove-Distinct, to_btree-Above,
}
use ig.Base.Map
use ig.Failure.{ok}
use ig.Backend.{BackendSpec, validate}
use ig.Backend as Config
use ig.Service.{
  Services, Declared, Backend, IsValid, Entries, new, built, register, contains, snapshot, remove,
  backend, describe, describe_backend, IpAddr, socket_addr,
}

-- The declaration of a port, if there is one.
abbrev pub declared : Services → ℕ → Option BackendSpec
declared s port = map_option (λ d. d.spec) (get port s.backends)

abbrev pub entry : ℕ → BackendSpec → Declared
entry port spec = record { spec = spec; backend = built port spec }

abbrev pub with_entry : Services → ℕ → BackendSpec → Services
with_entry s port spec = record s { backends = insert port (entry port spec) s.backends }

-- A dry run words a backend as the listing after the real run does.
describe_backend-built :
    (port : ℕ) (spec : BackendSpec) → describe_backend (built port spec) ≡ Config.describe spec
unfolding describe_backend Config.describe
describe_backend-built port (BackendSpec.http routes) = refl
describe_backend-built port (BackendSpec.tcp upstream) = refl
describe_backend-built port (BackendSpec.unix path) = refl

pub register-valid :
    (s : Services) (port : ℕ) (spec : BackendSpec)
    → validate spec port ≡ ok tt
    → register s port spec ≡ ok (with_entry s port spec)
unfolding register
register-valid s port spec h = rw (h, register)

insert-Entries :
    (port : ℕ) (spec : BackendSpec) (m : Map Declared)
    → validate spec port ≡ ok tt
    → Entries m
    → Entries (insert port (entry port spec) m)
unfolding insert
insert-Entries port spec [] h v = (h, refl, tt)
insert-Entries port spec ((q, d) ∷ m) h v = ground (arith, insert-Entries port spec m h)

remove-Entries : (port : ℕ) (m : Map Declared) → Entries m → Entries (Map.remove port m)
unfolding Map.remove
remove-Entries port [] v = tt
remove-Entries port ((q, d) ∷ m) v = ground (arith, remove-Entries port m)

get-Entries :
    (port : ℕ) (m : Map Declared) (d : Declared)
    → Entries m
    → get port m ≡ some d
    → (validate d.spec port ≡ ok tt) × (d.backend ≡ built port d.spec)
unfolding get
get-Entries port [] d v h = cc
get-Entries port ((q, w) ∷ m) d v h = ground (arith, get-Entries port m d)

pub register-ok :
    (s s' : Services) (port : ℕ) (spec : BackendSpec)
    → register s port spec ≡ ok s'
    → (validate spec port ≡ ok tt) × (s' ≡ with_entry s port spec)
unfolding register
register-ok s s' port spec h = ground arith

-- A declaration that is accepted redirects its own port and no other; the port is listed with the
-- description of its spec, every other port as before.
pub register_redirects :
    (s s' : Services) (port q : ℕ) (spec : BackendSpec)
    → register s port spec ≡ ok s'
    → (backend s' q ≡ (if port == q then built port spec else backend s q))
      × (describe s' q ≡ (if port == q then Config.describe spec else describe s q))
unfolding backend
register_redirects s s' port q spec h =
    let e = (register-ok s s' port spec h).1 in
    rw e (
      ground (arith, get-insert port q (entry port spec) s.backends),
      unfold describe in
          ground (
            arith,
            get-insert port q (entry port spec) s.backends,
            describe_backend-built port spec,
          ),
    )

pub register-IsValid :
    (s s' : Services) (port : ℕ) (spec : BackendSpec)
    → IsValid s
    → register s port spec ≡ ok s'
    → IsValid s'
register-IsValid s s' port spec v h =
    let (valid, e) = register-ok s s' port spec h in
    rw e (record {
      one_entry = keys-insert-Distinct port (entry port spec) s.backends v.one_entry;
      entries = insert-Entries port spec s.backends valid v.entries;
    })

pub remove-IsValid : (s : Services) (port : ℕ) → IsValid s → IsValid (remove s port).0
unfolding remove
remove-IsValid s port v = record {
  one_entry = keys-remove-Distinct port s.backends v.one_entry;
  entries = remove-Entries port s.backends v.entries;
}

pub new-IsValid : (host : IpAddr) → IsValid (new host)
unfolding keys
new-IsValid host = record { one_entry = tt; entries = tt }

-- Retiring a service sends its port back to the default forward and leaves the others; it reports
-- whether there was one.
pub remove_retires :
    (s : Services) (port q : ℕ)
    → (declared (remove s port).0 q ≡ (if port == q then none else declared s q))
      × ((remove s port).1 ≡ contains s port)
unfolding remove contains
remove_retires s port q = (ground (arith, get-remove port q s.backends), refl)

-- What is saved is exactly what was declared, in ascending order of the ports.
pub snapshot-declared :
    (s : Services) → Above 0 (keys (snapshot s)) × ((q : ℕ) → get q (snapshot s) ≡ declared s q)
unfolding snapshot
snapshot-declared s = (
  to_btree-Above (map_values (λ d. d.spec) s.backends),
  λ q.
      get-to_btree q (map_values (λ d. d.spec) s.backends)
      ∙ get-map_values (λ d. d.spec) q s.backends,
)

-- What serves a port with such a declaration, or with none: the default forward.
abbrev pub default_or_built : IpAddr → ℕ → Option BackendSpec → Backend
default_or_built host q (some spec) = built q spec
default_or_built host q none = Backend.tcp (socket_addr host q)

-- What serves a port depends on its declaration alone.
pub backend-declared :
    (s : Services) (q : ℕ) → IsValid s → backend s q ≡ default_or_built s.host q (declared s q)
unfolding backend
backend-declared s q v = elim (Option-cases (get q s.backends)) [
  | inl e ↦ rw e
  | inr (d, e) ↦ rw e (get-Entries q s.backends d v.entries e).1
]

-- A snapshot holds only specs that a fresh registry accepts.
pub declared-valid :
    (s : Services) (q : ℕ) (spec : BackendSpec)
    → IsValid s
    → declared s q ≡ some spec
    → validate spec q ≡ ok tt
declared-valid s q spec v h = elim (Option-cases (get q s.backends)) [
  | inl e ↦ absurd (cc)
  | inr (d, e) ↦ ground (arith, get-Entries q s.backends d v.entries e)
]
