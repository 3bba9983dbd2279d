-- ===== src/Autostart/Systemd/Exec.antt =====
-- autostart.rs, the line `ExecStart=` of the unit: the arguments that systemd reads from it.
use ig.Base.{
  ◌≡◌, refl, true, not, ◌&&◌, some, List, [], ◌∷◌, ◌++◌, map, if◌then◌else◌, is_empty, All,
  Bool-cases, inl, inr, ap, sym, ◌∙◌,
}
use mathlib.Core.List.{append-nil, append_assoc}
use ig.Base.Text.{Text}
use ig.Supervisor.{Plan, argv, join_words}
use ig.Autostart.Systemd.{quote, all_plain, exec_line, is_plain}
use ig.Autostart.Systemd.Quoting.{
  State, blank, bare, quoted, closed, scan, next, is_safe, prepend, escape_all, scan-step,
  scan-bare, next-blank, scan-quoted, both,
}

-- The state after a whole argument.
abbrev after : Text → State
after a = if not (is_empty a) && all_plain a then bare a else closed a

quoted-read :
    (a rest : Text)
    → is_safe a ≡ true
    → scan blank (34 ∷ ((escape_all a ++ 34 ∷ []) ++ rest)) ≡ scan (closed a) rest
unfolding next
quoted-read a rest h =
    scan-step blank (quoted []) 34 ((escape_all a ++ 34 ∷ []) ++ rest) refl
    ∙ ap (scan (quoted [])) (append_assoc (escape_all a) (34 ∷ []) rest)
    ∙ scan-quoted [] a (34 ∷ rest) h
    ∙ scan-step (quoted a) (closed a) 34 rest refl

plain-read :
    (a rest : Text)
    → (not (is_empty a) && all_plain a) ≡ true
    → scan blank (a ++ rest) ≡ scan (bare a) rest
unfolding all_plain
plain-read [] rest h = cc
plain-read (c ∷ cs) rest h =
    let (p, ps) = both (is_plain c) (all_plain cs) h in
    scan-step blank (bare (c ∷ [])) c (cs ++ rest) (next-blank c p) ∙ scan-bare (c ∷ []) cs rest ps

scan-quote : (a rest : Text) → is_safe a ≡ true → scan blank (quote a ++ rest) ≡ scan (after a) rest
unfolding quote
scan-quote a rest h = elim (Bool-cases (not (is_empty a) && all_plain a)) [
  | inl e ↦ rw e (plain-read a rest e)
  | inr e ↦ rw e (quoted-read a rest h)
]

-- A blank after an argument ends it, and so does the end of the line.
after-blank : (a rest : Text) → scan (after a) (32 ∷ rest) ≡ prepend (a ∷ []) (scan blank rest)
unfolding scan
after-blank a rest = elim (Bool-cases (not (is_empty a) && all_plain a)) [
  | inl e ↦ rw e refl
  | inr e ↦ rw e refl
]

after-end : (a : Text) → scan (after a) [] ≡ some (a ∷ [])
unfolding scan
after-end a = elim (Bool-cases (not (is_empty a) && all_plain a)) [
  | inl e ↦ rw e refl
  | inr e ↦ rw e refl
]

abbrev pub AllSafe : List Text → Type 0
AllSafe = All (λ a. is_safe a ≡ true)

scan-join : (args : List Text) → AllSafe args → scan blank (join_words (map quote args)) ≡ some args
unfolding join_words scan
scan-join [] safe = refl
scan-join (a ∷ []) safe =
    ap (scan blank) (sym (append-nil (quote a))) ∙ scan-quote a [] safe.0 ∙ after-end a
scan-join (a ∷ b ∷ args) safe =
    scan-quote a (32 ∷ join_words (map quote (b ∷ args))) safe.0
    ∙ after-blank a (join_words (map quote (b ∷ args)))
    ∙ ap (prepend (a ∷ [])) (scan-join (b ∷ args) safe.1)
    ∙ unfold prepend in refl

-- systemd reads from the line that starts the daemon exactly the arguments of the plan, whatever
-- blanks, quotes and backslashes they have, if none has a newline or one of the characters `%` and
-- `$`, which systemd replaces and `quote` leaves as they are.
pub exec_line-read :
    (plan : Plan) → AllSafe (argv plan) → scan blank (exec_line plan) ≡ some (argv plan)
unfolding exec_line
exec_line-read plan safe = scan-join (argv plan) safe
