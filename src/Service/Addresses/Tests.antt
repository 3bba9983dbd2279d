-- ===== src/Service/Addresses/Tests.antt =====
-- service.rs, samples of `synthetic_addr`.
use ig.Base.{ℕ, ◌≡◌, refl, List, [], ◌∷◌, ◌++◌, ◌↔◌}
use ig.Service.Addresses.{synthetic_addr, hash, mix, rotate_left_7, from_be_bytes, ip, port}
use ig.Service.Addresses.Range.{Synthetic, synthetic_addr-Synthetic}

abbrev zeros : List ℕ
zeros = 0 ∷ 0 ∷ 0 ∷ 0 ∷ 0 ∷ 0 ∷ 0 ∷ 0 ∷ []

abbrev one_key : List ℕ
one_key = zeros ++ zeros ++ zeros ++ zeros

abbrev another_key : List ℕ
another_key = (0 ∷ 0 ∷ 0 ∷ 1 ∷ 0 ∷ 0 ∷ 0 ∷ 128 ∷ []) ++ zeros ++ zeros ++ zeros

-- Two keys that share an address.
shared_test : synthetic_addr one_key ≡ synthetic_addr another_key
unfolding synthetic_addr hash mix rotate_left_7 from_be_bytes ip port
shared_test = refl

synthetic_addr-Synthetic_example :
    Synthetic (synthetic_addr one_key)
    × ((others : List ℕ)
        → (synthetic_addr one_key ≡ synthetic_addr others) ↔ (hash 0 one_key ≡ hash 0 others))
synthetic_addr-Synthetic_example = synthetic_addr-Synthetic one_key
