-- ===== src/Base/Map.antt =====
-- Finite maps with numbers as keys (HashMap, DashMap: order of insertion) as association lists.
use Prim.Native.Nat.{ℕ, suc, ◌≤◌}
use mathlib.Core.Path.{◌≡◌, refl}
use mathlib.Core.Bool.{Bool, false, ◌||◌, ◌&&◌, not}
use mathlib.Core.List.{List, [], ◌∷◌}
use mathlib.Core.Option.{Option, none, some}
use native.Mathlib.Omega.{arith}
use ig.Base.Tests.{ltb, ◌==◌, if◌then◌else◌, is_some}
use ig.Base.Lists.{contains, Distinct, Above}

abbrev pub Map {ℓ} : Type ℓ → Type ℓ
Map V = List (ℕ × V)

module _ {ℓ} {V : Type ℓ} where
  unfoldable pub get : ℕ → Map V → Option V
  get k [] = none
  get k ((j, v) ∷ m) = if j == k then some v else get k m

  unfoldable pub insert : ℕ → V → Map V → Map V
  insert k v [] = (k, v) ∷ []
  insert k v ((j, w) ∷ m) = if j == k then (j, v) ∷ m else (j, w) ∷ insert k v m

  unfoldable pub remove : ℕ → Map V → Map V
  remove k [] = []
  remove k ((j, w) ∷ m) = if j == k then remove k m else (j, w) ∷ remove k m

  -- Every entry is rewritten, and dropped where the function gives `none`.
  unfoldable pub retain : (V → Option V) → Map V → Map V
  retain f [] = []
  retain f ((j, w) ∷ m) = elim (f w) [ none ↦ retain f m | some w' ↦ (j, w') ∷ retain f m ]

  unfoldable pub keys : Map V → List ℕ
  keys [] = []
  keys ((j, w) ∷ m) = j ∷ keys m

  abbrev pub contains_key : ℕ → Map V → Bool
  contains_key k m = is_some (get k m)

  pub get-insert :
      (k j : ℕ) (v : V) (m : Map V) → get j (insert k v m) ≡ (if k == j then some v else get j m)
  unfolding get insert
  get-insert k j v [] = refl
  get-insert k j v ((i, w) ∷ m) = ground (arith, get-insert k j v m)

  pub get-remove : (k j : ℕ) (m : Map V) → get j (remove k m) ≡ (if k == j then none else get j m)
  unfolding get remove
  get-remove k j [] = ground arith
  get-remove k j ((i, w) ∷ m) = ground (arith, get-remove k j m)

  pub contains-keys : (k : ℕ) (m : Map V) → contains (keys m) k ≡ contains_key k m
  unfolding get keys
  contains-keys k [] = refl
  contains-keys k ((j, w) ∷ m) = ground (arith, contains-keys k m)

  pub contains-keys-insert :
      (k j : ℕ) (v : V) (m : Map V)
      → contains (keys (insert k v m)) j ≡ (k == j || contains (keys m) j)
  unfolding keys insert
  contains-keys-insert k j v [] = refl
  contains-keys-insert k j v ((i, w) ∷ m) = ground (arith, contains-keys-insert k j v m)

  pub keys-insert-Distinct :
      (k : ℕ) (v : V) (m : Map V) → Distinct (keys m) → Distinct (keys (insert k v m))
  unfolding keys insert
  keys-insert-Distinct k v [] d = (refl, tt)
  keys-insert-Distinct k v ((j, w) ∷ m) d =
      ground (arith, keys-insert-Distinct k v m, contains-keys-insert k j v m)

  pub contains-keys-remove :
      (k j : ℕ) (m : Map V) → contains (keys (remove k m)) j ≡ (not (k == j) && contains (keys m) j)
  unfolding keys remove
  contains-keys-remove k j [] = ground arith
  contains-keys-remove k j ((i, w) ∷ m) = ground (arith, contains-keys-remove k j m)

  pub keys-remove-Distinct : (k : ℕ) (m : Map V) → Distinct (keys m) → Distinct (keys (remove k m))
  unfolding keys remove
  keys-remove-Distinct k [] d = tt
  keys-remove-Distinct k ((j, w) ∷ m) d =
      ground (arith, keys-remove-Distinct k m, contains-keys-remove k j m)

  pub get-none : (k : ℕ) (m : Map V) → contains (keys m) k ≡ false → get k m ≡ none
  unfolding keys get
  get-none k [] h = refl
  get-none k ((j, w) ∷ m) h = ground (arith, get-none k m)

  contains-keys-retain :
      (f : V → Option V) (k : ℕ) (m : Map V)
      → contains (keys m) k ≡ false
      → contains (keys (retain f m)) k ≡ false
  unfolding keys retain
  contains-keys-retain f k [] h = refl
  contains-keys-retain f k ((j, w) ∷ m) h = ground (arith, contains-keys-retain f k m)

  pub keys-retain-Distinct :
      (f : V → Option V) (m : Map V) → Distinct (keys m) → Distinct (keys (retain f m))
  unfolding keys retain
  keys-retain-Distinct f [] d = tt
  keys-retain-Distinct f ((j, w) ∷ m) d =
      ground (arith, keys-retain-Distinct f m, contains-keys-retain f j m)

  abbrev bind : Option V → (V → Option V) → Option V
  bind none f = none
  bind (some v) f = f v

  pub get-retain :
      (f : V → Option V) (k : ℕ) (m : Map V)
      → Distinct (keys m)
      → get k (retain f m) ≡ bind (get k m) f
  unfolding keys get retain
  get-retain f k [] d = refl
  get-retain f k ((j, w) ∷ m) d =
      ground
        (arith, get-retain f k m, get-none k (retain f m), contains-keys-retain f k m, get-none k m)

  -- A BTreeMap is the same list in ascending order of the keys.
  btree_insert : ℕ → V → Map V → Map V
  btree_insert k v [] = (k, v) ∷ []
  btree_insert k v ((j, w) ∷ m) =
      if ltb k j
      then (k, v) ∷ (j, w) ∷ m
      else if j == k
      then (k, v) ∷ m
      else (j, w) ∷ btree_insert k v m

  unfoldable pub to_btree : Map V → Map V
  unfolding btree_insert
  to_btree [] = []
  to_btree ((j, w) ∷ m) = btree_insert j w (to_btree m)

  get-btree_insert :
      (k j : ℕ) (v : V) (m : Map V)
      → get j (btree_insert k v m) ≡ (if k == j then some v else get j m)
  unfolding get btree_insert
  get-btree_insert k j v [] = refl
  get-btree_insert k j v ((i, w) ∷ m) = ground (arith, get-btree_insert k j v m)

  pub get-to_btree : (k : ℕ) (m : Map V) → get k (to_btree m) ≡ get k m
  unfolding get to_btree
  get-to_btree k [] = refl
  get-to_btree k ((j, w) ∷ m) =
      ground (arith, get-btree_insert j k w (to_btree m), get-to_btree k m)

  btree_insert-Above :
      (n k : ℕ) (v : V) (m : Map V) → n ≤ k → Above n (keys m) → Above n (keys (btree_insert k v m))
  unfolding keys btree_insert
  btree_insert-Above n k v [] h b = (h, tt)
  btree_insert-Above n k v ((j, w) ∷ m) h b = ground (arith, btree_insert-Above (suc j) k v m)

  pub to_btree-Above : (m : Map V) → Above 0 (keys (to_btree m))
  unfolding keys to_btree
  to_btree-Above [] = tt
  to_btree-Above ((j, w) ∷ m) =
      btree_insert-Above 0 j w (to_btree m) (omega arith) (to_btree-Above m)

-- The values of a map, rewritten.
unfoldable pub map_values {ℓ κ} : {V : Type ℓ} {W : Type κ} → (V → W) → Map V → Map W
map_values f [] = []
map_values f ((j, w) ∷ m) = (j, f w) ∷ map_values f m

abbrev pub map_option {ℓ κ} : {V : Type ℓ} {W : Type κ} → (V → W) → Option V → Option W
map_option f none = none
map_option f (some v) = some (f v)

pub get-map_values {ℓ κ} :
    {V : Type ℓ} {W : Type κ} (f : V → W) (k : ℕ) (m : Map V)
    → get k (map_values f m) ≡ map_option f (get k m)
unfolding get map_values
get-map_values f k [] = refl
get-map_values f k ((j, w) ∷ m) = ground (arith, get-map_values f k m)
