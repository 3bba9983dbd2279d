-- ===== src/Upgrade/Sums.antt =====
-- upgrade.rs, `verify`: the digests that the sums of a release state.
use ig.Base.{
  ℕ, ◌≡◌, ◌≢◌, refl, sym, ◌∙◌, ap, Option, none, some, List, [], ◌∷◌, ◌⊎◌, inl, inr, arith,
  Bool-cases,
}
use ig.Base.Text.{Text, text, text_eq, text_eq_iff, hex}
use ig.Base.Lines.{trim, to_lowercase, lines, split_once}
use ig.Failure.{Result, ok, err, kind_of, invalid, not_found}
use ig.Upgrade.{verify, wanted, checked, sum_of}
use ig.Release.{Site}

-- A line that states a digest for this file.
abbrev pub States : Text → Text → Text → Type 0
States name line digest =
    (sum file : Text) × (split_once (text "  ") line ≡ some (sum, file))
    × (trim file ≡ name)
    × (to_lowercase (trim sum) ≡ digest)

-- The first line for this file states this digest.
pub data Listed (name : Text) : List Text → Text → Type 0 where
  here :
      (line digest : Text) (ls : List Text)
      → States name line digest
      → Listed name (line ∷ ls) digest
  there :
      (line digest : Text) (ls : List Text)
      → ((other : Text) → ¬ States name line other)
      → Listed name ls digest
      → Listed name (line ∷ ls) digest

sum_of-Listed :
    (name digest line : Text) (ls : List Text) (o : Option (Text × Text)) (rest : Option Text)
    → split_once (text "  ") line ≡ o
    → (rest ≡ some digest → Listed name ls digest)
    → sum_of name o rest ≡ some digest
    → Listed name (line ∷ ls) digest
unfolding sum_of
sum_of-Listed name digest line ls none rest e f k =
    there line digest ls (λ other (sum, file, h, _, _). cc) (f k)
sum_of-Listed name digest line ls (some (sum, file)) rest e f k =
    elim (Bool-cases (text_eq (trim file) name)) [
      | inl t ↦ here line digest ls (sum, file, e, (text_eq_iff (trim file) name).0 t, ground arith)
      | inr t ↦
          there line digest ls
            (λ other (sum', file', h, same, _). ground (arith, text_eq_iff (trim file) name))
            (f (ground arith))
    ]

wanted-Listed :
    (name digest : Text) (ls : List Text) → wanted name ls ≡ some digest → Listed name ls digest
unfolding wanted
wanted-Listed name digest [] h = cc
wanted-Listed name digest (line ∷ ls) h =
    sum_of-Listed name digest line ls (split_once (text "  ") line) (wanted name ls) refl
      (wanted-Listed name digest ls) h

checked-want : (name got : Text) (o : Option Text) → checked name got o ≡ ok tt → o ≡ some got
unfolding checked
checked-want name got none h = cc
checked-want name got (some want) h = ground (arith, text_eq_iff got want)

pub verify-Listed :
    (s : Site) (binary : List ℕ) (sums name : Text)
    → verify s binary sums name ≡ ok tt
    → Listed name (lines sums) (hex (s.sha256 binary))
unfolding verify
verify-Listed s binary sums name h =
    wanted-Listed name _ (lines sums)
      (checked-want name (hex (s.sha256 binary)) (wanted name (lines sums)) h)

sum_of-skip :
    (name line : Text) (o : Option (Text × Text)) (rest : Option Text)
    → split_once (text "  ") line ≡ o
    → ((other : Text) → ¬ States name line other)
    → sum_of name o rest ≡ rest
unfolding sum_of
sum_of-skip name line none rest h never = refl
sum_of-skip name line (some (s, f)) rest h never = elim (Bool-cases (text_eq (trim f) name)) [
  | inl t ↦ absurd (never _ (s, f, h, (text_eq_iff (trim f) name).0 t, refl))
  | inr t ↦ rw t
]

sum_of-take :
    (name d : Text) (s f : Text) (rest : Option Text)
    → trim f ≡ name
    → to_lowercase (trim s) ≡ d
    → sum_of name (some (s, f)) rest ≡ some d
unfolding sum_of
sum_of-take name d s f rest same p = ground (arith, text_eq_iff (trim f) name)

Listed-wanted : (name d : Text) (ls : List Text) → Listed name ls d → wanted name ls ≡ some d
unfolding wanted
Listed-wanted name d ls (here line e rest (s, f, h, same, p)) =
    rw h (sum_of-take name e s f (wanted name rest) same p)
Listed-wanted name d ls (there line e rest never l) =
    sum_of-skip name line (split_once (text "  ") line) (wanted name rest) refl never
    ∙ Listed-wanted name e rest l

-- What a check can come to.
abbrev pub Verdict : Text → List Text → Text → Result (Unit {0}) → Type 0
Verdict name ls got (ok _) = Listed name ls got
Verdict name ls got (err e) =
    ((kind_of e ≡ not_found) × ((d : Text) → ¬ Listed name ls d))
    ⊎ ((kind_of e ≡ invalid) × ((want : Text) × Listed name ls want × (want ≢ got)))

checked-Verdict :
    (name got : Text) (ls : List Text) (o : Option Text)
    → wanted name ls ≡ o
    → Verdict name ls got (checked name got o)
unfolding checked kind_of
checked-Verdict name got ls none h =
    inl (refl, λ d l. absurd (let e : some d ≡ none = sym (Listed-wanted name d ls l) ∙ h in cc))
checked-Verdict name got ls (some want) h = elim (Bool-cases (text_eq got want)) [
  | inl t ↦ rw t (wanted-Listed name got ls (h ∙ ap some (sym ((text_eq_iff got want).0 t))))
  | inr t ↦
      rw t (
        inr (refl, (want, wanted-Listed name want ls h, λ e. ground (arith, text_eq_iff got want))))
]

-- The check passes only if the first line for the asset in the sums states the digest of the binary.
-- If there is no such line the error is of the kind for what is not found, and if it states another
-- digest, of the kind for invalid input; there is no other error.
pub verify-Verdict :
    (s : Site) (binary : List ℕ) (sums name : Text)
    → Verdict name (lines sums) (hex (s.sha256 binary)) (verify s binary sums name)
unfolding verify
verify-Verdict s binary sums name =
    checked-Verdict name (hex (s.sha256 binary)) (lines sums) (wanted name (lines sums)) refl
