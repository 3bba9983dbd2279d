-- ===== src/Cli/Binds.antt =====
-- main.rs, `parse_bind`: which texts it accepts, and what they read as.
use ig.Base.{
  ℕ, ◌+◌, ◌*◌, ◌-◌, ◌<◌, ◌≤◌, ◌≡◌, ◌↔◌, refl, ap, ◌∙◌, sym, true, false, ◌&&◌, Option, none, some,
  [], ◌∷◌, ◌++◌, leb, ltb, ltb→lt, ◌==◌, subst, contains, ◌⊎◌, inl, inr, arith, Bool-cases, ==_iff,
}
use ig.Base.Text.{
  Text, text, decimal, spelled, spelled-decimal, is_digit, all_digits, all_digits-decimal,
  decimal-some,
}
use ig.Base.Lines.{split_once, split_once-join, split_once-at}
use ig.Cli.{
  parse_u16, unsigned, digits, push_digit, in_u16, parse_bind, bind_parts, remote_part, local_part,
  parsed,
}

parsed-injective : {A : Type 0} (a b : A) → parsed a ≡ parsed b → a ≡ b
parsed-injective a b e = cc

digits-none : (cs : Text) → digits none cs ≡ none
unfolding digits push_digit
digits-none [] = refl
digits-none (c ∷ cs) = digits-none cs

spelled-grows : (cs : Text) (n : ℕ) → n ≤ spelled n cs
unfolding spelled
spelled-grows [] n = omega arith
spelled-grows (c ∷ cs) n = omega (arith, spelled-grows cs (n * 10 + (c - 48)))

digits-spelled :
    (cs : Text) (n : ℕ)
    → all_digits cs ≡ true
    → spelled n cs < 65536
    → digits (some n) cs ≡ some (spelled n cs)
unfolding digits push_digit in_u16 all_digits is_digit spelled
digits-spelled [] n h b = refl
digits-spelled (c ∷ cs) n h b =
    ground (arith, spelled-grows cs (n * 10 + (c - 48)), digits-spelled cs (n * 10 + (c - 48)))

-- What a numeral of a 16-bit number looks like: decimal digits, at least one, after at most one plus
-- sign.
pub record Numeral (s : Text) (n : ℕ) : Type 0 where
  pub first : ℕ
  pub rest : Text
  pub sign : (s ≡ first ∷ rest) ⊎ (s ≡ 43 ∷ first ∷ rest)
  pub all : all_digits (first ∷ rest) ≡ true
  pub value : spelled 0 (first ∷ rest) ≡ n
  pub bound : n < 65536

spelled-digits :
    (cs : Text) (n m : ℕ)
    → n < 65536
    → digits (some n) cs ≡ some m
    → (all_digits cs ≡ true) × (spelled n cs ≡ m) × (m < 65536)
unfolding digits push_digit in_u16 all_digits is_digit spelled
spelled-digits [] n m b h = ground arith
spelled-digits (c ∷ cs) n m b h = elim (Bool-cases (leb 48 c && leb c 57)) [
  | inl e ↦ elim (Bool-cases (ltb (n * 10 + (c - 48)) 65536)) [
    | inl f ↦
        let next : digits (some (n * 10 + (c - 48))) cs ≡ some m = ground arith in
        let (a, s, t) = spelled-digits cs (n * 10 + (c - 48)) m (ltb→lt _ _ f) next in
        (ground arith, s, t)
    | inr f ↦ ground (arith, digits-none cs)
  ]
  | inr e ↦ ground (arith, digits-none cs)
]

plain-Numeral :
    (s : Text) (c : ℕ) (cs : Text) (n : ℕ)
    → (s ≡ c ∷ cs) ⊎ (s ≡ 43 ∷ c ∷ cs)
    → unsigned (c ∷ cs) ≡ some n
    → Numeral s n
unfolding unsigned
plain-Numeral s c cs n sign h =
    let (a, v, b) = spelled-digits (c ∷ cs) 0 n (omega arith) h in
    record { first = c; rest = cs; sign = sign; all = a; value = v; bound = b }

signed-Numeral : (cs : Text) (n : ℕ) → unsigned cs ≡ some n → Numeral (43 ∷ cs) n
unfolding unsigned
signed-Numeral [] n h = cc
signed-Numeral (d ∷ ds) n h = plain-Numeral (43 ∷ d ∷ ds) d ds n (inr refl) h

parse_u16-Numeral : (s : Text) (n : ℕ) → parse_u16 s ≡ some n → Numeral s n
unfolding parse_u16
parse_u16-Numeral [] n h = cc
parse_u16-Numeral (c ∷ cs) n h = elim (Bool-cases (c == 43)) [
  | inl e ↦
      subst (λ d. Numeral (d ∷ cs) n) (sym ((==_iff c 43).0 e)) (signed-Numeral cs n (ground arith))
  | inr e ↦ plain-Numeral (c ∷ cs) c cs n (inl refl) (ground arith)
]

Numeral-parse_u16 : (s : Text) (n : ℕ) → Numeral s n → parse_u16 s ≡ some n
unfolding parse_u16 unsigned
Numeral-parse_u16 s n m =
    let read = digits-spelled (m.first ∷ m.rest) 0 m.all (omega (arith, m.value, m.bound)) in
    elim m.sign [
      | inl e ↦
          let plain : (m.first == 43) ≡ false =
            unfold all_digits is_digit in ground (arith, m.all) in
          rw (e, parse_u16, plain) (read ∙ ap some m.value)
      | inr e ↦ rw e (read ∙ ap some m.value)
    ]

all_digits-colon : (s : Text) → all_digits s ≡ true → contains s 58 ≡ false
unfolding all_digits is_digit
all_digits-colon [] h = refl
all_digits-colon (c ∷ cs) h = ground (arith, all_digits-colon cs)

Numeral-colon : (s : Text) (n : ℕ) → Numeral s n → contains s 58 ≡ false
Numeral-colon s n m =
    let free = all_digits-colon (m.first ∷ m.rest) m.all in
    elim m.sign [ inl e ↦ rw e free | inr e ↦ rw e free ]

-- The two numerals of a pair, around a colon.
pub record Pair (arg : Text) (p : ℕ × ℕ) : Type 0 where
  pub remote : Text
  pub local : Text
  pub around : arg ≡ remote ++ 58 ∷ local
  pub remote_numeral : Numeral remote p.0
  pub local_numeral : Numeral local p.1

local_part-Pair :
    (r l : Text) (n : ℕ) (o : Option ℕ) (p : ℕ × ℕ)
    → Numeral r n
    → parse_u16 l ≡ o
    → local_part n l o ≡ parsed p
    → Pair (r ++ 58 ∷ l) p
unfolding local_part
local_part-Pair r l n none p m h k = cc
local_part-Pair r l n (some k) p m h e =
    subst (Pair (r ++ 58 ∷ l)) (parsed-injective (n, k) p e) (record {
      remote = r;
      local = l;
      around = refl;
      remote_numeral = m;
      local_numeral = parse_u16-Numeral l k h;
    })

remote_part-Pair :
    (r l : Text) (o : Option ℕ) (p : ℕ × ℕ)
    → parse_u16 r ≡ o
    → remote_part r l o ≡ parsed p
    → Pair (r ++ 58 ∷ l) p
unfolding remote_part
remote_part-Pair r l none p h k = cc
remote_part-Pair r l (some n) p h k =
    local_part-Pair r l n (parse_u16 l) p (parse_u16-Numeral r n h) refl k

bind_parts-Pair :
    (arg : Text) (o : Option (Text × Text)) (p : ℕ × ℕ)
    → split_once (text ":") arg ≡ o
    → bind_parts arg o ≡ parsed p
    → Pair arg p
unfolding bind_parts text
bind_parts-Pair arg none p h k = cc
bind_parts-Pair arg (some (r, l)) p h k =
    subst (λ s. Pair s p) (sym (split_once-join (text ":") arg r l h))
      (remote_part-Pair r l (parse_u16 r) p refl k)

Pair-parse_bind : (arg : Text) (p : ℕ × ℕ) → Pair arg p → parse_bind arg ≡ parsed p
unfolding parse_bind bind_parts remote_part local_part text
Pair-parse_bind arg p q =
    rw
      (
        q.around,
        split_once-at 58 q.remote q.local (Numeral-colon q.remote p.0 q.remote_numeral),
        bind_parts,
        Numeral-parse_u16 q.remote p.0 q.remote_numeral,
        remote_part,
        Numeral-parse_u16 q.local p.1 q.local_numeral,
      )
      refl

-- An argument is read as a pair of ports exactly if it is two numerals of numbers below 65536 around
-- a colon, each with at least one digit and at most one plus sign before it, and it is read as those
-- two numbers.
pub parse_bind_iff : (arg : Text) (p : ℕ × ℕ) → (parse_bind arg ≡ parsed p) ↔ Pair arg p
unfolding parse_bind
parse_bind_iff arg p =
    (bind_parts-Pair arg (split_once (text ":") arg) p refl, Pair-parse_bind arg p)

decimal-Numeral : (n : ℕ) → n < 65536 → Numeral (decimal n) n
decimal-Numeral n b =
    let (c, cs, e) = decimal-some n in
    record {
      first = c;
      rest = cs;
      sign = inl e;
      all = subst (λ s. all_digits s ≡ true) e (all_digits-decimal n);
      value = ap (spelled 0) (sym e) ∙ spelled-decimal n;
      bound = b;
    }

-- Two ports that are printed with a colon between them are read back.
pub parse_bind-decimal :
    (remote local : ℕ)
    → remote < 65536
    → local < 65536
    → parse_bind (decimal remote ++ 58 ∷ decimal local) ≡ parsed (remote, local)
parse_bind-decimal remote local r l =
    Pair-parse_bind _ (remote, local)
      (record {
        remote = decimal remote;
        local = decimal local;
        around = refl;
        remote_numeral = decimal-Numeral remote r;
        local_numeral = decimal-Numeral local l;
      })
