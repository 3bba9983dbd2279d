-- ===== src/Service/Addresses/Range.antt =====
-- service.rs, `synthetic_addr`: where the addresses lie, and which peers share one.
use Prim.Native.Nat.{bit_xor}
use ig.Base.{ℕ, ◌≡◌, ap, ◌^◌, ◌≤◌, ◌<◌, List, [], ◌∷◌, arith, ◌↔◌}
use ig.Service.Addresses.{from_be_bytes, rotate_left_7, mix, hash, ip, port, synthetic_addr}

rotate_left_7-small : (h : ℕ) → rotate_left_7 h < 2 ^ 32
unfolding rotate_left_7
rotate_left_7-small h = omega arith

mix-small : (h word : ℕ) → mix h word < 2 ^ 32
unfolding mix
mix-small h word = rotate_left_7-small (bit_xor h word)

hash-small : (h : ℕ) (bytes : List ℕ) → h < 2 ^ 32 → hash h bytes < 2 ^ 32
unfolding hash
hash-small h [] s = s
hash-small h (a ∷ []) s = mix-small h _
hash-small h (a ∷ b ∷ []) s = mix-small h _
hash-small h (a ∷ b ∷ c ∷ []) s = mix-small h _
hash-small h (a ∷ b ∷ c ∷ d ∷ rest) s =
    hash-small (mix h (from_be_bytes a b c d)) rest (mix-small h _)

address_small :
    (h : ℕ)
    → h < 2 ^ 32
    → (0x64400000 ≤ ip h) × (ip h < 0x64800000) × (1024 ≤ port h) × (port h < 2048)
unfolding ip port
address_small h s = (omega arith, omega (arith, s), omega arith, omega (arith, s))

address_determines : (h k : ℕ) → h < 2 ^ 32 → k < 2 ^ 32 → ip h ≡ ip k → port h ≡ port k → h ≡ k
unfolding ip port
address_determines h k s t p q = omega (arith, s, t, p, q)

-- The address lies in 100.64.0.0/10, and the port from 1024 to 2047.
abbrev pub Synthetic : ℕ × ℕ → Type 0
Synthetic (ip, port) = (0x64400000 ≤ ip) × (ip < 0x64800000) × (1024 ≤ port) × (port < 2048)

-- The address that stands for a peer lies in 100.64.0.0/10 with a port from 1024 to 2047, whatever
-- the bytes of its key; and two keys share an address exactly if their 32-bit hashes agree, so that
-- no bit of the hash is lost.
pub synthetic_addr-Synthetic :
    (bytes : List ℕ)
    → Synthetic (synthetic_addr bytes)
      × ((others : List ℕ)
          → (synthetic_addr bytes ≡ synthetic_addr others) ↔ (hash 0 bytes ≡ hash 0 others))
unfolding synthetic_addr
synthetic_addr-Synthetic bytes = (
  address_small (hash 0 bytes) (hash-small 0 bytes (omega arith)),
  λ others. (
    λ same.
        address_determines (hash 0 bytes) (hash 0 others) (hash-small 0 bytes (omega arith))
          (hash-small 0 others (omega arith)) (ap (λ a. a.0) same) (ap (λ a. a.1) same),
    λ same. ap (λ h. (ip h, port h)) same,
  ),
)
