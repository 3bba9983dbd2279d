-- ===== src/Service/Addresses.antt =====
-- service.rs, `synthetic_addr`: the address that stands for a peer in the proxy's logs. A `u32` is a
-- number below 2 ^ 32, a byte one below 256.
pub mod Range
mod Tests
use Prim.Native.Nat.{bit_xor}
use ig.Base.{ℕ, ◌+◌, ◌*◌, ◌/◌, ◌%◌, ◌^◌, List, [], ◌∷◌}

-- `u32::from_be_bytes`.
unfoldable pub from_be_bytes : ℕ → ℕ → ℕ → ℕ → ℕ
from_be_bytes a b c d = ((a * 256 + b) * 256 + c) * 256 + d

-- `u32::rotate_left(7)`.
unfoldable pub rotate_left_7 : ℕ → ℕ
rotate_left_7 h = h * 128 % 2 ^ 32 + h / 2 ^ 25 % 128

-- One round of the loop: the word is mixed in, and the hash rotated.
unfoldable pub mix : ℕ → ℕ → ℕ
unfolding rotate_left_7
mix h word = rotate_left_7 (bit_xor h word)

-- The loop over `chunks(4)`; the last chunk is padded with zeros.
unfoldable pub hash : ℕ → List ℕ → ℕ
unfolding mix from_be_bytes
hash h [] = h
hash h (a ∷ []) = mix h (from_be_bytes a 0 0 0)
hash h (a ∷ b ∷ []) = mix h (from_be_bytes a b 0 0)
hash h (a ∷ b ∷ c ∷ []) = mix h (from_be_bytes a b c 0)
hash h (a ∷ b ∷ c ∷ d ∷ rest) = hash (mix h (from_be_bytes a b c d)) rest

-- 100.64.0.0, whose low 22 bits are zero, with the low 22 bits of the hash.
unfoldable pub ip : ℕ → ℕ
ip h = 0x64400000 + h % 2 ^ 22

-- The high 10 bits of the hash, above the privileged ports.
unfoldable pub port : ℕ → ℕ
port h = (1024 + h / 2 ^ 22 % 2 ^ 16) % 2 ^ 16

unfoldable pub synthetic_addr : List ℕ → ℕ × ℕ
unfolding ip port hash
synthetic_addr bytes = (ip (hash 0 bytes), port (hash 0 bytes))
