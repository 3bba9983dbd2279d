-- ===== src/Grants.antt =====
-- grants.rs: which port is exposed to which peer. The map of sets is an association list of lists
-- without repetition; its order is the order of insertion, where the source's is unspecified.
pub mod Access
pub mod Views
pub mod Refinement
pub mod Invariant
mod Tests
use ig.Base.{
  ℕ, ◌≡◌, Bool, true, false, Option, none, some, List, [], ◌∷◌, ◌++◌, if◌then◌else◌, contains,
  set_insert, set_remove, is_empty, sort, unwrap_or, Distinct,
}
use ig.Base.Map.{Map, get, insert, retain, keys}
use ig.Base.Map
use ig.Base.Rows.{sort_by_first}

pub record Grants : Type 0 where
  pub by_port : Map (List ℕ)

abbrev pub default : Grants
default = record { by_port = [] }

unfoldable pub add : Grants → ℕ → ℕ → Grants
add g port grantee = record {
  by_port = insert port (set_insert grantee (unwrap_or (get port g.by_port) [])) g.by_port;
}

-- What is left of a set of grantees, or `none` if nothing is.
abbrev pub without : ℕ → List ℕ → Option (List ℕ)
without peer grantees =
    let rest = set_remove peer grantees in if is_empty rest then none else some rest

remove_one : ℕ → ℕ → Map (List ℕ) → Map (List ℕ)
remove_one port grantee m = elim (get port m) [
  | none ↦ m
  | some grantees ↦ elim (without grantee grantees) [
    | none ↦ Map.remove port m
    | some rest ↦ insert port rest m
  ]
]

unfoldable pub remove : Grants → ℕ → Option ℕ → Grants
unfolding remove_one
remove g port (some grantee) = record { by_port = remove_one port grantee g.by_port }
remove g port none = record { by_port = Map.remove port g.by_port }

unfoldable pub revoke_grantee : Grants → ℕ → Grants
revoke_grantee g peer = record { by_port = retain (without peer) g.by_port }

-- Is `peer` among the grantees that were found?
abbrev pub among : Option (List ℕ) → ℕ → Bool
among none peer = false
among (some grantees) peer = contains grantees peer

unfoldable pub allows : Grants → ℕ → ℕ → Bool
allows g port peer = among (get port g.by_port) peer

ports_with : ℕ → Map (List ℕ) → List ℕ
ports_with peer [] = []
ports_with peer ((port, grantees) ∷ m) =
    if contains grantees peer then port ∷ ports_with peer m else ports_with peer m

unfoldable pub ports_for : Grants → ℕ → List ℕ
unfolding ports_with
ports_for g peer = sort (ports_with peer g.by_port)

unfoldable pub ports : Grants → List ℕ
ports g = sort (keys g.by_port)

pairs : ℕ → List ℕ → List (ℕ × ℕ)
pairs port [] = []
pairs port (grantee ∷ grantees) = (port, grantee) ∷ pairs port grantees

rows : Map (List ℕ) → List (ℕ × ℕ)
unfolding pairs
rows [] = []
rows ((port, grantees) ∷ m) = pairs port grantees ++ rows m

unfoldable pub all : Grants → List (ℕ × ℕ)
unfolding rows
all g = sort_by_first (rows g.by_port)

-- Every set of grantees that is kept has a member.
abbrev pub NoneEmpty : Map (List ℕ) → Type 0
NoneEmpty [] = Unit {0}
NoneEmpty ((port, grantees) ∷ m) = (is_empty grantees ≡ false) × NoneEmpty m

pub record IsValid (g : Grants) : Type 0 where
  pub one_entry : Distinct (keys g.by_port)
  pub granted : NoneEmpty g.by_port
