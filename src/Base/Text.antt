-- ===== src/Base/Text.antt =====
-- Texts as lists of character codes: equality, decimal and hexadecimal numerals, splitting.
use Prim.Native.Nat.{ℕ, zero, suc, ◌+◌, ◌*◌, ◌-◌, ◌/◌, ◌%◌, ◌<◌}
use Prim.Native.Char.{code}
use Prim.Native.String.{String}
use mathlib.Core.Path.{◌≡◌, refl, ap, ap₂, subst, ◌∙◌}
use mathlib.Core.Logic.{◌↔◌, inl, inr}
use mathlib.Core.Bool.{Bool, true, false, ◌&&◌}
use mathlib.Core.List.{List, [], ◌∷◌}
use mathlib.Core.Option.{Option, none, some}
use native.Mathlib.Omega.{arith}
use ig.Base.Tests.{ltb, ltb→lt, leb, ◌==◌, if◌then◌else◌, Bool-cases}
use ig.Base.Lists.{length, All}

abbrev pub Text : Type 0
Text = List ℕ

unfoldable pub text : String → Text
text String.[] = []
text (String.◌∷◌ c s) = code c ∷ text s

unfoldable pub text_eq : Text → Text → Bool
text_eq [] [] = true
text_eq [] (y ∷ ys) = false
text_eq (x ∷ xs) [] = false
text_eq (x ∷ xs) (y ∷ ys) = x == y && text_eq xs ys

pub text_eq_refl : (s : Text) → text_eq s s ≡ true
unfolding text_eq
text_eq_refl [] = refl
text_eq_refl (x ∷ xs) = ground (arith, text_eq_refl xs)

pub text_eq-eq : (s t : Text) → text_eq s t ≡ true → s ≡ t
unfolding text_eq
text_eq-eq [] [] h = refl
text_eq-eq [] (y ∷ ys) h = cc
text_eq-eq (x ∷ xs) [] h = cc
text_eq-eq (x ∷ xs) (y ∷ ys) h = ground (arith, text_eq-eq xs ys)

pub text_eq_iff : (s t : Text) → (text_eq s t ≡ true) ↔ (s ≡ t)
text_eq_iff s t = (text_eq-eq s t, λ e. subst (λ u. text_eq s u ≡ true) e (text_eq_refl s))

-- `format!("{n}")`, from the last digit; the fuel bounds the number of digits.
digits_from : ℕ → ℕ → Text → Text
digits_from zero n acc = acc
digits_from (suc f) n acc =
    let rest = digits_from f (n / 10) ((48 + n % 10) ∷ acc) in
    if ltb n 10 then (48 + n % 10) ∷ acc else rest

unfoldable pub decimal : ℕ → Text
unfolding digits_from
decimal n = digits_from (suc n) n []

-- The number that a text of decimal digits spells, after `acc`.
unfoldable pub spelled : ℕ → Text → ℕ
spelled acc [] = acc
spelled acc (c ∷ cs) = spelled (acc * 10 + (c - 48)) cs

digits_from-spelled :
    (f n : ℕ) (acc : Text) → n < f → spelled 0 (digits_from f n acc) ≡ spelled n acc
unfolding digits_from spelled
digits_from-spelled zero n acc h = elim h [ ]
digits_from-spelled (suc f) n acc h = elim (Bool-cases (ltb n 10)) [
  | inl e ↦ rw e (ap (λ k. spelled k acc) (omega (arith, ltb→lt n 10 e)))
  | inr e ↦ rw e (
      digits_from-spelled f (n / 10) ((48 + n % 10) ∷ acc) (ground arith)
      ∙ ap (λ k. spelled k acc) (omega arith))
]

-- A printed number reads back as itself.
pub spelled-decimal : (n : ℕ) → spelled 0 (decimal n) ≡ n
unfolding decimal spelled
spelled-decimal n = digits_from-spelled (suc n) n [] (omega arith)

unfoldable pub is_digit : ℕ → Bool
is_digit c = leb 48 c && leb c 57

unfoldable pub all_digits : Text → Bool
unfolding is_digit
all_digits [] = true
all_digits (c ∷ cs) = is_digit c && all_digits cs

digits_from-digits :
    (f n : ℕ) (acc : Text) → all_digits acc ≡ true → all_digits (digits_from f n acc) ≡ true
unfolding digits_from all_digits
digits_from-digits zero n acc h = h
digits_from-digits (suc f) n acc h =
    ground (arith, digits_from-digits f (n / 10) ((48 + n % 10) ∷ acc))

pub all_digits-decimal : (n : ℕ) → all_digits (decimal n) ≡ true
unfolding decimal all_digits
all_digits-decimal n = digits_from-digits (suc n) n [] refl

digits_from-some :
    (f n c : ℕ) (acc : Text) → (d : ℕ) × (ds : Text) × (digits_from f n (c ∷ acc) ≡ d ∷ ds)
unfolding digits_from
digits_from-some zero n c acc = (c, acc, refl)
digits_from-some (suc f) n c acc = elim (Bool-cases (ltb n 10)) [
  | inl e ↦ (48 + n % 10, c ∷ acc, rw e refl)
  | inr e ↦ let (d, ds, h) = digits_from-some f (n / 10) (48 + n % 10) (c ∷ acc) in (d, ds, rw e h)
]

-- A printed number has at least one digit.
pub decimal-some : (n : ℕ) → (c : ℕ) × (cs : Text) × (decimal n ≡ c ∷ cs)
unfolding decimal digits_from
decimal-some n = elim (Bool-cases (ltb n 10)) [
  | inl e ↦ (48 + n % 10, [], rw e refl)
  | inr e ↦ let (d, ds, h) = digits_from-some n (n / 10) (48 + n % 10) [] in (d, ds, rw e h)
]

hex_digit : ℕ → ℕ
hex_digit d = if ltb d 10 then 48 + d else 87 + d

-- `format!("{b:02x}")` of each byte in turn.
unfoldable pub hex : List ℕ → Text
unfolding hex_digit
hex [] = []
hex (b ∷ bs) = hex_digit (b / 16) ∷ hex_digit (b % 16) ∷ hex bs

abbrev pub AreBytes : List ℕ → Type 0
AreBytes = All (λ b. b < 256)

pub length-hex : (bs : List ℕ) → length (hex bs) ≡ 2 * length bs
unfolding hex
length-hex [] = refl
length-hex (b ∷ bs) = omega (arith, length-hex bs)

hex_digit-injective : (d e : ℕ) → d < 16 → e < 16 → hex_digit d ≡ hex_digit e → d ≡ e
unfolding hex_digit
hex_digit-injective d e h k p = ground arith

pub hex-injective : (xs ys : List ℕ) → AreBytes xs → AreBytes ys → hex xs ≡ hex ys → xs ≡ ys
unfolding hex
hex-injective [] [] h k p = refl
hex-injective [] (y ∷ ys) h k p = cc
hex-injective (x ∷ xs) [] h k p = cc
hex-injective (x ∷ xs) (y ∷ ys) h k p =
    let high : hex_digit (x / 16) ≡ hex_digit (y / 16) = cc in
    let low : hex_digit (x % 16) ≡ hex_digit (y % 16) = cc in
    let rest : hex xs ≡ hex ys = cc in
    let same : x ≡ y = omega (
      arith,
      hex_digit-injective (x / 16) (y / 16) (omega arith) (omega arith) high,
      hex_digit-injective (x % 16) (y % 16) (omega arith) (omega arith) low,
    ) in
    ap₂ ◌∷◌ same (hex-injective xs ys h.1 k.1 rest)

-- `s.split(sep).next()`.
unfoldable pub before : ℕ → Text → Text
before sep [] = []
before sep (c ∷ cs) = if c == sep then [] else c ∷ before sep cs

-- `s.rsplit_once(sep)`: split at the last occurrence.
unfoldable pub rsplit_once : ℕ → Text → Option (Text × Text)
rsplit_once sep [] = none
rsplit_once sep (c ∷ cs) = elim (rsplit_once sep cs) [
  | some (head, tail) ↦ some (c ∷ head, tail)
  | none ↦ if c == sep then some ([], cs) else none
]

unfoldable pub starts_with : Text → Text → Bool
starts_with s [] = true
starts_with [] (p ∷ ps) = false
starts_with (c ∷ cs) (p ∷ ps) = c == p && starts_with cs ps

unfoldable pub strip_prefix : Text → Text → Option Text
strip_prefix s [] = some s
strip_prefix [] (p ∷ ps) = none
strip_prefix (c ∷ cs) (p ∷ ps) = if c == p then strip_prefix cs ps else none
