-- ===== src/Autostart/Systemd/Quoting.antt =====
-- autostart.rs, `quote`: what systemd makes of a quoted argument. `scan` is the part of its syntax of
-- a command line that matters here, after systemd.service(5): words are set apart by blanks, and in
-- double quotes a backslash takes the next quote or backslash as it stands. What stands for something
-- else (`%`, `$`), and what ends the line, is refused.
use ig.Base.{
  ℕ, ◌≡◌, refl, Bool, true, false, not, ◌&&◌, ◌||◌, Option, none, some, List, [], ◌∷◌, ◌++◌, ◌==◌,
  if◌then◌else◌, arith, Bool-cases, inl, inr, ap, sym, ◌∙◌, ==_iff,
}
use mathlib.Core.List.{append-nil, append_assoc}
use ig.Base.Text.{Text}
use ig.Autostart.Systemd.{replace, is_plain, all_plain}

-- Between words, in a bare word, in double quotes, after a backslash there, and after the quotes.
pub data State : Type 0 where
  blank : State
  bare quoted escaped closed : Text → State

-- A character that systemd does not take as it stands, or that ends the line.
abbrev pub is_special : ℕ → Bool
is_special c = c == 37 || c == 36 || c == 10

grow : Text → ℕ → Text
grow w c = w ++ c ∷ []

-- The state after a character, and the word that it ended.
unfoldable pub next : State → ℕ → Option (State × List Text)
unfolding grow
next blank c =
    if c == 32
    then some (blank, [])
    else if c == 34
    then some (quoted [], [])
    else if is_special c || c == 92 || c == 39
    then none
    else some (bare (c ∷ []), [])
next (bare w) c =
    if c == 32
    then some (blank, w ∷ [])
    else if is_special c || c == 92 || c == 39 || c == 34
    then none
    else some (bare (grow w c), [])
next (quoted w) c =
    if c == 34
    then some (closed w, [])
    else if c == 92
    then some (escaped w, [])
    else if is_special c
    then none
    else some (quoted (grow w c), [])
next (escaped w) c = if c == 34 || c == 92 then some (quoted (grow w c), []) else none
next (closed w) c = if c == 32 then some (blank, w ∷ []) else none

finish : State → Option (List Text)
finish blank = some []
finish (bare w) = some (w ∷ [])
finish (quoted w) = none
finish (escaped w) = none
finish (closed w) = some (w ∷ [])

unfoldable pub prepend : List Text → Option (List Text) → Option (List Text)
prepend ws none = none
prepend ws (some vs) = some (ws ++ vs)

go_on : Option (State × List Text) → (State → Option (List Text)) → Option (List Text)
unfolding prepend
go_on none f = none
go_on (some (s, ws)) f = prepend ws (f s)

unfoldable pub scan : State → Text → Option (List Text)
unfolding next finish go_on
scan s [] = finish s
scan s (c ∷ cs) = go_on (next s c) (λ t. scan t cs)

-- No character of it is special.
abbrev pub is_safe : Text → Bool
is_safe [] = true
is_safe (c ∷ cs) = not (is_special c) && is_safe cs

prepend-nil : (o : Option (List Text)) → prepend [] o ≡ o
unfolding prepend
prepend-nil none = refl
prepend-nil (some ws) = refl

-- A step that ends no word.
pub scan-step :
    (s t : State) (c : ℕ) (cs : Text) → next s c ≡ some (t, []) → scan s (c ∷ cs) ≡ scan t cs
unfolding scan
scan-step s t c cs h = rw (h, go_on) (prepend-nil (scan t cs))

next-bare : (w : Text) (c : ℕ) → is_plain c ≡ true → next (bare w) c ≡ some (bare (w ++ c ∷ []), [])
unfolding next is_plain
next-bare w c h = ground arith

pub both : (a b : Bool) → (a && b) ≡ true → (a ≡ true) × (b ≡ true)
both true b h = (refl, h)
both false b h = cc

plain-both :
    (c : ℕ) (cs : Text) → all_plain (c ∷ cs) ≡ true → (is_plain c ≡ true) × (all_plain cs ≡ true)
unfolding all_plain
plain-both c cs h = both (is_plain c) (all_plain cs) h

pub scan-bare :
    (w a rest : Text) → all_plain a ≡ true → scan (bare w) (a ++ rest) ≡ scan (bare (w ++ a)) rest
scan-bare w [] rest h = ap (λ v. scan (bare v) rest) (sym (append-nil w))
scan-bare w (c ∷ cs) rest h =
    let (p, ps) = plain-both c cs h in
    scan-step (bare w) (bare (w ++ c ∷ [])) c (cs ++ rest) (next-bare w c p)
    ∙ scan-bare (w ++ c ∷ []) cs rest ps
    ∙ ap (λ v. scan (bare v) rest) (append_assoc w (c ∷ []) cs)

pub next-blank : (c : ℕ) → is_plain c ≡ true → next blank c ≡ some (bare (c ∷ []), [])
unfolding next is_plain
next-blank c h = ground arith

-- What the two replacements make of one character.
abbrev escape : ℕ → Text
escape c = if c == 92 then 92 ∷ 92 ∷ [] else if c == 34 then 92 ∷ 34 ∷ [] else c ∷ []

abbrev pub escape_all : Text → Text
escape_all s = replace 34 (92 ∷ 34 ∷ []) (replace 92 (92 ∷ 92 ∷ []) s)

escape_all-cons : (c : ℕ) (cs : Text) → escape_all (c ∷ cs) ≡ escape c ++ escape_all cs
unfolding replace
escape_all-cons c cs = elim (Bool-cases (c == 92)) [
  | inl e ↦ ground (arith, e)
  | inr e ↦ ground (arith, e)
]

-- One character of a quoted argument is read back.
scan-escape :
    (w : Text) (c : ℕ) (rest : Text)
    → not (is_special c) ≡ true
    → scan (quoted w) (escape c ++ rest) ≡ scan (quoted (w ++ c ∷ [])) rest
unfolding next
scan-escape w c rest h = elim (Bool-cases (c == 92)) [
  | inl e ↦ rw e (
      scan-step (quoted w) (escaped w) 92 (92 ∷ rest) refl
      ∙ scan-step (escaped w) (quoted (w ++ 92 ∷ [])) 92 rest refl
      ∙ ap (λ d. scan (quoted (w ++ d ∷ [])) rest) (sym ((==_iff c 92).0 e)))
  | inr e ↦ elim (Bool-cases (c == 34)) [
    | inl f ↦
        rw (e, f)
          (scan-step (quoted w) (escaped w) 92 (34 ∷ rest) refl
            ∙ scan-step (escaped w) (quoted (w ++ 34 ∷ [])) 34 rest refl
            ∙ ap (λ d. scan (quoted (w ++ d ∷ [])) rest) (sym ((==_iff c 34).0 f)))
    | inr f ↦ rw (e, f) (scan-step (quoted w) (quoted (w ++ c ∷ [])) c rest (ground (arith, e, f)))
  ]
]

safe-both :
    (c : ℕ) (cs : Text)
    → is_safe (c ∷ cs) ≡ true
    → (not (is_special c) ≡ true) × (is_safe cs ≡ true)
safe-both c cs h = both (not (is_special c)) (is_safe cs) h

pub scan-quoted :
    (w a rest : Text)
    → is_safe a ≡ true
    → scan (quoted w) (escape_all a ++ rest) ≡ scan (quoted (w ++ a)) rest
unfolding replace
scan-quoted w [] rest h = ap (λ v. scan (quoted v) rest) (sym (append-nil w))
scan-quoted w (c ∷ cs) rest h =
    let (p, ps) = safe-both c cs h in
    ap (λ s. scan (quoted w) (s ++ rest)) (escape_all-cons c cs)
    ∙ ap (scan (quoted w)) (append_assoc (escape c) (escape_all cs) rest)
    ∙ scan-escape w c (escape_all cs ++ rest) p
    ∙ scan-quoted (w ++ c ∷ []) cs rest ps
    ∙ ap (λ v. scan (quoted v) rest) (append_assoc w (c ∷ []) cs)
