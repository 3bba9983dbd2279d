-- ===== src/Base/Rows.antt =====
-- Lists of pairs of numbers: membership, and sorting by the first number.
use ig.Base.Tests.{leb, ◌==◌, if◌then◌else◌}
use Prim.Native.Nat.{ℕ, ◌≤◌}
use mathlib.Core.Path.{◌≡◌, refl}
use mathlib.Core.Bool.{Bool, false, ◌||◌, ◌&&◌}
use mathlib.Core.List.{List, [], ◌∷◌, ◌++◌}
use native.Mathlib.Omega.{arith}

abbrev pub has_row : List (ℕ × ℕ) → ℕ → ℕ → Bool
has_row [] a b = false
has_row ((x, y) ∷ rows) a b = (x == a && y == b) || has_row rows a b

pub has_row-append :
    (xs ys : List (ℕ × ℕ)) (a b : ℕ) → has_row (xs ++ ys) a b ≡ (has_row xs a b || has_row ys a b)
has_row-append [] ys a b = refl
has_row-append ((x, y) ∷ xs) ys a b = ground (arith, has_row-append xs ys a b)

-- A row goes before the first that is not smaller.
row_insert : ℕ → ℕ → List (ℕ × ℕ) → List (ℕ × ℕ)
row_insert a b [] = (a, b) ∷ []
row_insert a b ((x, y) ∷ rows) =
    if leb a x then (a, b) ∷ (x, y) ∷ rows else (x, y) ∷ row_insert a b rows

unfoldable pub sort_by_first : List (ℕ × ℕ) → List (ℕ × ℕ)
unfolding row_insert
sort_by_first [] = []
sort_by_first ((x, y) ∷ rows) = row_insert x y (sort_by_first rows)

has_row-row_insert :
    (x y : ℕ) (rows : List (ℕ × ℕ)) (a b : ℕ)
    → has_row (row_insert x y rows) a b ≡ ((x == a && y == b) || has_row rows a b)
unfolding row_insert
has_row-row_insert x y [] a b = refl
has_row-row_insert x y ((u, v) ∷ rows) a b = ground (arith, has_row-row_insert x y rows a b)

pub has_row-sort_by_first :
    (rows : List (ℕ × ℕ)) (a b : ℕ) → has_row (sort_by_first rows) a b ≡ has_row rows a b
unfolding sort_by_first
has_row-sort_by_first [] a b = refl
has_row-sort_by_first ((x, y) ∷ rows) a b =
    ground (arith, has_row-row_insert x y (sort_by_first rows) a b, has_row-sort_by_first rows a b)

-- The first numbers ascend from a lower bound.
abbrev pub AscendsFrom : ℕ → List (ℕ × ℕ) → Type 0
AscendsFrom n [] = Unit {0}
AscendsFrom n ((x, y) ∷ rows) = (n ≤ x) × AscendsFrom x rows

row_insert-AscendsFrom :
    (n x y : ℕ) (rows : List (ℕ × ℕ))
    → n ≤ x
    → AscendsFrom n rows
    → AscendsFrom n (row_insert x y rows)
unfolding row_insert
row_insert-AscendsFrom n x y [] h b = (h, tt)
row_insert-AscendsFrom n x y ((u, v) ∷ rows) h b = ground (arith, row_insert-AscendsFrom u x y rows)

pub sort_by_first-AscendsFrom : (rows : List (ℕ × ℕ)) → AscendsFrom 0 (sort_by_first rows)
unfolding sort_by_first
sort_by_first-AscendsFrom [] = tt
sort_by_first-AscendsFrom ((x, y) ∷ rows) =
    row_insert-AscendsFrom 0 x y (sort_by_first rows) (omega arith) (sort_by_first-AscendsFrom rows)
