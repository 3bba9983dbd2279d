-- ===== src/Base/Lists.antt =====
-- Lists of numbers: membership, insertion without repetition, removal, and sorting.
use Prim.Native.Nat.{ℕ, zero, suc, ◌+◌, ◌≤◌, ◌<◌}
use mathlib.Core.Path.{◌≡◌, refl, ap}
use mathlib.Core.Bool.{Bool, true, false, ◌||◌, ◌&&◌, not}
use mathlib.Core.List.{List, [], ◌∷◌, ◌++◌}
use mathlib.Core.Option.{Option, none, some}
use native.Mathlib.Omega.{arith}
use ig.Base.Tests.{leb, ◌==◌, if◌then◌else◌}

module _ {ℓ} {A : Type ℓ} where
  abbrev pub length : List A → ℕ
  length [] = 0
  length (x ∷ xs) = suc (length xs)

  abbrev pub get_elem? : List A → ℕ → Option A
  get_elem? [] i = none
  get_elem? (x ∷ xs) zero = some x
  get_elem? (x ∷ xs) (suc i) = get_elem? xs i

  abbrev pub take : ℕ → List A → List A
  take zero xs = []
  take (suc n) [] = []
  take (suc n) (x ∷ xs) = x ∷ take n xs

  abbrev pub drop : ℕ → List A → List A
  drop zero xs = xs
  drop (suc n) [] = []
  drop (suc n) (x ∷ xs) = drop n xs

  pub take-drop : (n : ℕ) (xs : List A) → take n xs ++ drop n xs ≡ xs
  take-drop zero xs = refl
  take-drop (suc n) [] = refl
  take-drop (suc n) (x ∷ xs) = ap (λ ys. x ∷ ys) (take-drop n xs)

  pub length-append : (xs ys : List A) → length (xs ++ ys) ≡ length xs + length ys
  length-append [] ys = omega arith
  length-append (x ∷ xs) ys = omega (arith, length-append xs ys)

  abbrev pub All {κ} : (A → Type κ) → List A → Type κ
  All P [] = Unit
  All P (x ∷ xs) = P x × All P xs

  -- `filter` by a Boolean test.
  unfoldable pub keep : (A → Bool) → List A → List A
  keep p [] = []
  keep p (x ∷ xs) = if p x then x ∷ keep p xs else keep p xs

  abbrev pub is_empty : List A → Bool
  is_empty [] = true
  is_empty (x ∷ xs) = false

abbrev pub contains : List ℕ → ℕ → Bool
contains [] a = false
contains (x ∷ xs) a = x == a || contains xs a

pub contains-is_empty : (xs : List ℕ) (a : ℕ) → is_empty xs ≡ true → contains xs a ≡ false
contains-is_empty [] a h = refl
contains-is_empty (x ∷ xs) a h = cc

-- Insertion into a set kept as a list.
unfoldable pub set_insert : ℕ → List ℕ → List ℕ
set_insert a [] = a ∷ []
set_insert a (x ∷ xs) = if x == a then x ∷ xs else x ∷ set_insert a xs

unfoldable pub set_remove : ℕ → List ℕ → List ℕ
set_remove a [] = []
set_remove a (x ∷ xs) = if x == a then set_remove a xs else x ∷ set_remove a xs

pub contains-set_insert :
    (a b : ℕ) (xs : List ℕ) → contains (set_insert a xs) b ≡ (a == b || contains xs b)
unfolding set_insert
contains-set_insert a b [] = refl
contains-set_insert a b (x ∷ xs) = ground (arith, contains-set_insert a b xs)

pub contains-set_remove :
    (a b : ℕ) (xs : List ℕ) → contains (set_remove a xs) b ≡ (not (a == b) && contains xs b)
unfolding set_remove
contains-set_remove a b [] = ground arith
contains-set_remove a b (x ∷ xs) = ground (arith, contains-set_remove a b xs)

pub contains-append :
    (xs ys : List ℕ) (a : ℕ) → contains (xs ++ ys) a ≡ (contains xs a || contains ys a)
contains-append [] ys a = refl
contains-append (x ∷ xs) ys a = ground (arith, contains-append xs ys a)

-- Insertion sort; on distinct numbers there is only one sorted order.
pub sorted_insert : ℕ → List ℕ → List ℕ
sorted_insert a [] = a ∷ []
sorted_insert a (x ∷ xs) = if leb a x then a ∷ x ∷ xs else x ∷ sorted_insert a xs

unfoldable pub sort : List ℕ → List ℕ
unfolding sorted_insert
sort [] = []
sort (x ∷ xs) = sorted_insert x (sort xs)

contains-sorted_insert :
    (a b : ℕ) (xs : List ℕ) → contains (sorted_insert a xs) b ≡ (a == b || contains xs b)
unfolding sorted_insert
contains-sorted_insert a b [] = refl
contains-sorted_insert a b (x ∷ xs) = ground (arith, contains-sorted_insert a b xs)

pub contains-sort : (b : ℕ) (xs : List ℕ) → contains (sort xs) b ≡ contains xs b
unfolding sort
contains-sort b [] = refl
contains-sort b (x ∷ xs) = ground (arith, contains-sorted_insert x b (sort xs), contains-sort b xs)

-- Strictly ascending from a lower bound: sorted, with no repetition.
abbrev pub Above : ℕ → List ℕ → Type 0
Above n [] = Unit {0}
Above n (x ∷ xs) = (n ≤ x) × Above (suc x) xs

-- No number occurs twice.
abbrev pub Distinct : List ℕ → Type 0
Distinct [] = Unit {0}
Distinct (x ∷ xs) = (contains xs x ≡ false) × Distinct xs

sorted_insert-Above :
    (n a : ℕ) (xs : List ℕ)
    → n ≤ a
    → contains xs a ≡ false
    → Above n xs
    → Above n (sorted_insert a xs)
unfolding sorted_insert
sorted_insert-Above n a [] h m b = (h, tt)
sorted_insert-Above n a (x ∷ xs) h m b = ground (arith, sorted_insert-Above (suc x) a xs)

pub sort-Above : (xs : List ℕ) → Distinct xs → Above 0 (sort xs)
unfolding sort
sort-Above [] d = tt
sort-Above (x ∷ xs) d =
    sorted_insert-Above 0 x (sort xs) (omega arith) (ground (arith, contains-sort x xs))
      (sort-Above xs d.1)

pub Above-contains : (n k : ℕ) (xs : List ℕ) → k < n → Above n xs → contains xs k ≡ false
Above-contains n k [] h b = refl
Above-contains n k (x ∷ xs) h b = ground (arith, Above-contains (suc x) k xs)
