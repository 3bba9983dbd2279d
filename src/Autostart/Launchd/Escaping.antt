-- ===== src/Autostart/Launchd/Escaping.antt =====
-- autostart.rs, `escape`: what an XML reader makes of an escaped argument.
use ig.Base.{
  ℕ, ◌≡◌, refl, true, Option, none, some, [], ◌∷◌, ◌++◌, ◌==◌, if◌then◌else◌, Bool-cases, inl, inr,
  ap, sym, ◌∙◌, ==_iff, subst,
}
use ig.Base.Text.{Text, text, text_eq}
use ig.Autostart.Systemd.{replace}
use ig.Autostart.Launchd.{escape}

-- In character data, or in a reference after its ampersand.
pub data State : Type 0 where
  outside : State
  inside : Text → State

-- The five names that XML predefines.
entity : Text → Option ℕ
entity name =
    if text_eq name (text "amp")
    then some 38
    else if text_eq name (text "lt")
    then some 60
    else if text_eq name (text "gt")
    then some 62
    else if text_eq name (text "quot")
    then some 34
    else if text_eq name (text "apos")
    then some 39
    else none

referred : Option ℕ → Option (State × Option ℕ)
referred none = none
referred (some c) = some (outside, some c)

-- The state after a character, and the character that it stands for; a tag ends the text.
next : State → ℕ → Option (State × Option ℕ)
unfolding entity referred
next outside c =
    if c == 38 then some (inside [], none) else if c == 60 then none else some (outside, some c)
next (inside name) c =
    if c == 59 then referred (entity name) else some (inside (name ++ c ∷ []), none)

consed : ℕ → Option Text → Option Text
consed c none = none
consed c (some s) = some (c ∷ s)

go_on : Option (State × Option ℕ) → (State → Option Text) → Option Text
unfolding consed
go_on none f = none
go_on (some (s, none)) f = f s
go_on (some (s, some c)) f = consed c (f s)

finish : State → Option Text
finish outside = some []
finish (inside name) = none

-- The character data that a text stands for.
unfoldable pub read : State → Text → Option Text
unfolding next go_on finish
read s [] = finish s
read s (c ∷ cs) = go_on (next s c) (λ t. read t cs)

abbrev escaped : ℕ → Text
escaped c =
    if c == 38
    then text "&amp;"
    else if c == 60
    then text "&lt;"
    else if c == 62
    then text "&gt;"
    else if c == 34
    then text "&quot;"
    else if c == 39
    then text "&apos;"
    else c ∷ []

escape-cons : (c : ℕ) (cs : Text) → escape (c ∷ cs) ≡ escaped c ++ escape cs
unfolding escape replace text
escape-cons c cs = elim (Bool-cases (c == 38)) [
  | inl e ↦ rw e refl
  | inr e ↦ elim (Bool-cases (c == 60)) [
    | inl f ↦ rw (e, f) refl
    | inr f ↦ elim (Bool-cases (c == 62)) [
      | inl g ↦ rw (e, f, g) refl
      | inr g ↦ elim (Bool-cases (c == 34)) [
        | inl h ↦ rw (e, f, g, h) refl
        | inr h ↦ elim (Bool-cases (c == 39)) [
          | inl k ↦ rw (e, f, g, h, k) refl
          | inr k ↦ rw (e, f, g, h, k) refl
        ]
      ]
    ]
  ]
]

-- The reader gets this character from what was made of it.
abbrev ReadsBack : Text → ℕ → Type 0
ReadsBack rest c = read outside (escaped c ++ rest) ≡ consed c (read outside rest)

moved : (c d : ℕ) (rest : Text) → (c == d) ≡ true → ReadsBack rest d → ReadsBack rest c
moved c d rest e h = subst (ReadsBack rest) (sym ((==_iff c d).0 e)) h

read-escaped : (c : ℕ) (rest : Text) → ReadsBack rest c
unfolding read text text_eq
read-escaped c rest = elim (Bool-cases (c == 38)) [
  | inl e ↦ moved c 38 rest e refl
  | inr e ↦ elim (Bool-cases (c == 60)) [
    | inl f ↦ moved c 60 rest f refl
    | inr f ↦ elim (Bool-cases (c == 62)) [
      | inl g ↦ moved c 62 rest g refl
      | inr g ↦ elim (Bool-cases (c == 34)) [
        | inl h ↦ moved c 34 rest h refl
        | inr h ↦ elim (Bool-cases (c == 39)) [
          | inl k ↦ moved c 39 rest k refl
          | inr k ↦ rw (e, f, g, h, k) (rw (e, f) refl)
        ]
      ]
    ]
  ]
]

-- An XML reader gets from an escaped argument the argument, whatever characters it has.
pub escape-read : (s : Text) → read outside (escape s) ≡ some s
unfolding consed
escape-read [] = unfold escape replace read in refl
escape-read (c ∷ cs) =
    ap (read outside) (escape-cons c cs)
    ∙ read-escaped c (escape cs)
    ∙ ap (consed c) (escape-read cs)
