-- ===== src/Grants/Views.antt =====
-- The lists that grants.rs hands out, against `allows`.
use ig.Base.{
  ℕ, ◌≡◌, refl, true, false, ◌&&◌, Option, none, some, List, [], ◌∷◌, arith, ◌==◌, contains,
  is_empty, contains-sort, sort-Above, Above, Distinct, inl, inr, Bool-cases, ◌↔◌, is_some,
}
use ig.Base.Map.{Map, get, keys, get-none, contains-keys}
use ig.Base.Rows.{
  has_row, has_row-append, has_row-sort_by_first, AscendsFrom, sort_by_first-AscendsFrom,
}
use ig.Grants.{
  Grants, allows, among, ports_for, ports_with, ports, pairs, rows, all, IsValid, NoneEmpty,
}

ports_with-among :
    (peer port : ℕ) (m : Map (List ℕ))
    → Distinct (keys m)
    → contains (ports_with peer m) port ≡ among (get port m) peer
unfolding ports_with keys get
ports_with-among peer port [] d = refl
ports_with-among peer port ((q, grantees) ∷ m) d =
    ground (arith, ports_with-among peer port m d.1, get-none port m)

contains-ports_with :
    (peer port : ℕ) (m : Map (List ℕ))
    → contains (keys m) port ≡ false
    → contains (ports_with peer m) port ≡ false
unfolding ports_with keys
contains-ports_with peer port [] h = refl
contains-ports_with peer port ((q, grantees) ∷ m) h =
    ground (arith, contains-ports_with peer port m)

ports_with-Distinct :
    (peer : ℕ) (m : Map (List ℕ)) → Distinct (keys m) → Distinct (ports_with peer m)
unfolding ports_with keys
ports_with-Distinct peer [] d = tt
ports_with-Distinct peer ((q, grantees) ∷ m) d =
    ground (arith, ports_with-Distinct peer m, contains-ports_with peer q m)

-- What is announced to a peer is exactly what it is granted, each port once, in ascending order.
pub ports_for-allows :
    (g : Grants) (peer : ℕ)
    → IsValid g
    → Above 0 (ports_for g peer)
      × ((port : ℕ) → contains (ports_for g peer) port ≡ allows g port peer)
unfolding ports_for allows
ports_for-allows g peer v = (
  sort-Above (ports_with peer g.by_port) (ports_with-Distinct peer g.by_port v.one_entry),
  λ port.
      rw (contains-sort port (ports_with peer g.by_port))
        (ports_with-among peer port g.by_port v.one_entry),
)

has_member : (xs : List ℕ) → is_empty xs ≡ false → (a : ℕ) × (contains xs a ≡ true)
has_member [] h = cc
has_member (x ∷ xs) h = (x, ground arith)

-- A granted port has a grantee: `NoneEmpty` gives one.
some_grantee :
    (port : ℕ) (m : Map (List ℕ))
    → NoneEmpty m
    → is_some (get port m) ≡ true
    → (peer : ℕ) × (among (get port m) peer ≡ true)
unfolding get
some_grantee port [] v h = cc
some_grantee port ((q, grantees) ∷ m) v h = elim (Bool-cases (q == port)) [
  | inl e ↦ rw e (has_member grantees v.0)
  | inr e ↦ rw e (some_grantee port m v.1 (rw e at h))
]

among-is_some : (o : Option (List ℕ)) (peer : ℕ) → among o peer ≡ true → is_some o ≡ true
among-is_some none peer h = h
among-is_some (some grantees) peer h = refl

-- A port is listed as exposed exactly if some peer is granted it.
pub ports-allows :
    (g : Grants) (port : ℕ)
    → IsValid g
    → (contains (ports g) port ≡ true) ↔ ((peer : ℕ) × (allows g port peer ≡ true))
unfolding ports allows
ports-allows g port v =
    rw (contains-sort port (keys g.by_port), contains-keys port g.by_port)
      (some_grantee port g.by_port v.granted, λ w. among-is_some (get port g.by_port) w.0 w.1)

pub ports-Above : (g : Grants) → IsValid g → Above 0 (ports g)
unfolding ports
ports-Above g v = sort-Above (keys g.by_port) v.one_entry

has_row-pairs :
    (port q peer : ℕ) (grantees : List ℕ)
    → has_row (pairs port grantees) q peer ≡ (port == q && contains grantees peer)
unfolding pairs
has_row-pairs port q peer [] = ground arith
has_row-pairs port q peer (x ∷ xs) = ground (arith, has_row-pairs port q peer xs)

has_row-rows :
    (q peer : ℕ) (m : Map (List ℕ))
    → Distinct (keys m)
    → has_row (rows m) q peer ≡ among (get q m) peer
unfolding rows keys get
has_row-rows q peer [] d = refl
has_row-rows q peer ((port, grantees) ∷ m) d = ground (
  arith,
  has_row-append (pairs port grantees) (rows m) q peer,
  has_row-pairs port q peer grantees,
  has_row-rows q peer m d.1,
  get-none q m,
)

-- The rows of `all` are exactly the grants in force, sorted by port.
pub all-allows :
    (g : Grants)
    → IsValid g
    → AscendsFrom 0 (all g) × ((port peer : ℕ) → has_row (all g) port peer ≡ allows g port peer)
unfolding all allows
all-allows g v = (
  sort_by_first-AscendsFrom (rows g.by_port),
  λ port peer.
      rw (has_row-sort_by_first (rows g.by_port) port peer)
        (has_row-rows port peer g.by_port v.one_entry),
)
