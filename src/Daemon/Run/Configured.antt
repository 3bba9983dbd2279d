-- ===== src/Daemon/Run/Configured.antt =====
-- daemon.rs, `run`: the services that the files declare are valid.
use mathlib.Core.Bool.{false≢true}
use ig.Base.{
  refl, is_some, Option, none, some, is_empty, ◌==◌, Bool-cases, inl, inr, ap, sym, ◌∙◌, arith, ℕ,
  ◌≡◌, Bool, true, false, List, [], ◌∷◌, ◌++◌, if◌then◌else◌, subst,
}
use ig.Base.Text.{Text, text}
use ig.Failure.{Error, Result, ok, err, ok-injective, with_context, bind-ok, with_context-ok}
use ig.Backend.{BackendSpec}
use ig.Service
use ig.Service.{Services, register, register_new}
use ig.Service.Files.{
  Loader, load_service_file, ServiceEntry, ServiceFile, entries, services_of, load_toml,
}
use ig.Service.Registry.{register-IsValid, declared, register-ok, entry}
use ig.Base.Map.{get, get-insert, map_option}
use ig.Daemon.Run.{register_all, apply_configs}

unrefused :
    (b : Bool) (e : Error) (r : Result Services) (s : Services)
    → (if b then err e else r) ≡ ok s
    → r ≡ ok s
unrefused true e r s h = cc
unrefused false e r s h = h

register_new-IsValid :
    (s s' : Services) (port : ℕ) (spec : BackendSpec)
    → Service.IsValid s
    → register_new s port spec ≡ ok s'
    → Service.IsValid s'
unfolding register_new
register_new-IsValid s s' port spec v h =
    register-IsValid s s' port spec v (unrefused (Service.contains s port) _ _ s' h)

register_all-IsValid :
    (path : Text) (entries : List (ℕ × BackendSpec)) (s s' : Services)
    → Service.IsValid s
    → register_all path entries s ≡ ok s'
    → Service.IsValid s'
unfolding register_all
register_all-IsValid path [] s s' v h = subst Service.IsValid (ok-injective s s' h) v
register_all-IsValid path ((port, spec) ∷ entries) s s' v h =
    let (t, one, rest) =
      bind-ok (with_context (text "in service config " ++ path) (register_new s port spec)) _ s'
        h in
    register_all-IsValid path entries t s'
      (register_new-IsValid s t port spec v (with_context-ok _ _ t one)) rest

pub apply_configs-IsValid :
    (l : Loader) (paths : List Text) (s s' : Services)
    → Service.IsValid s
    → apply_configs l paths s ≡ ok s'
    → Service.IsValid s'
unfolding apply_configs
apply_configs-IsValid l [] s s' v h = subst Service.IsValid (ok-injective s s' h) v
apply_configs-IsValid l (path ∷ paths) s s' v h =
    let (entries, one, rest) = bind-ok (load_service_file l path) _ s' h in
    let (t, two, last) = bind-ok (register_all path entries s) _ s' rest in
    apply_configs-IsValid l paths t s' (register_all-IsValid path entries s t v two) last

-- The declaration of a port in the files.
abbrev pub entry_for : ℕ → List ServiceEntry → Option BackendSpec
entry_for q [] = none
entry_for q (e ∷ es) = if e.port == q then some e.backend else entry_for q es

-- These files were all read and parsed, none is without entries, and these are the entries of all of
-- them, in their order.
abbrev pub FilesSay : Loader → List Text → List ServiceEntry → Type 0
FilesSay l [] all = all ≡ []
FilesSay l (path ∷ paths) all =
    (content : Text) × (file : ServiceFile) × (rest : List ServiceEntry) × (l.read_to_string path
      ≡ ok content)
    × (l.parse_services content ≡ ok file)
    × (is_empty file.services ≡ false)
    × FilesSay l paths rest
    × (all ≡ file.services ++ rest)

-- A second declaration yields to the first.
abbrev pub then_from : Option BackendSpec → Option BackendSpec → Option BackendSpec
then_from (some spec) later = some spec
then_from none later = later

entry_for-append :
    (q : ℕ) (es fs : List ServiceEntry)
    → entry_for q (es ++ fs) ≡ then_from (entry_for q es) (entry_for q fs)
entry_for-append q [] fs = refl
entry_for-append q (e ∷ es) fs = elim (Bool-cases (e.port == q)) [
  | inl h ↦ rw h refl
  | inr h ↦ rw h (entry_for-append q es fs)
]

not_taken :
    (b : Bool) (e : Error) (r : Result Services) (s : Services)
    → (if b then err e else r) ≡ ok s
    → b ≡ false
not_taken true e r s h = cc
not_taken false e r s h = refl

then_from_assoc :
    (a b c : Option BackendSpec) → then_from (then_from a b) c ≡ then_from a (then_from b c)
then_from_assoc none b c = refl
then_from_assoc (some spec) b c = refl

inserted :
    (q port : ℕ) (spec : BackendSpec) (o : Option Service.Declared)
    → ((port == q) ≡ true → is_some o ≡ false)
    → map_option (λ d. d.spec) (if port == q then some (entry port spec) else o)
      ≡ then_from (map_option (λ d. d.spec) o) (if port == q then some spec else none)
inserted q port spec none h = ground arith
inserted q port spec (some d) h = elim (Bool-cases (port == q)) [
  | inl e ↦ absurd (false≢true (sym (h e)))
  | inr e ↦ rw e refl
]

register_new-declared :
    (s s' : Services) (port : ℕ) (spec : BackendSpec)
    → register_new s port spec ≡ ok s'
    → (q : ℕ) → declared s' q ≡ then_from (declared s q) (if port == q then some spec else none)
unfolding register_new Service.contains
register_new-declared s s' port spec h q =
    ap (λ v. declared v q)
      (register-ok s s' port spec (unrefused (Service.contains s port) _ _ s' h)).1
    ∙ ap (map_option (λ d. d.spec)) (get-insert port q (entry port spec) s.backends)
    ∙ inserted q port spec (get q s.backends)
        λ same. ground (arith, not_taken (Service.contains s port) _ _ s' h, same)

then_from_none : (o : Option BackendSpec) → then_from o none ≡ o
then_from_none none = refl
then_from_none (some spec) = refl

first_entry :
    (q : ℕ) (e : ServiceEntry) (es : List ServiceEntry)
    → then_from (if e.port == q then some e.backend else none) (entry_for q es)
      ≡ entry_for q (e ∷ es)
first_entry q e es = elim (Bool-cases (e.port == q)) [ inl h ↦ rw h refl | inr h ↦ rw h refl ]

services_of-full :
    (path : Text) (file : ServiceFile) (es : List (ℕ × BackendSpec))
    → services_of path file ≡ ok es
    → (is_empty file.services ≡ false) × (es ≡ entries file.services)
unfolding services_of
services_of-full path file es h = elim (Bool-cases (is_empty file.services)) [
  | inl e ↦ ground arith
  | inr e ↦ (e, ground arith)
]

register_all-declared :
    (path : Text) (es : List ServiceEntry) (s s' : Services)
    → register_all path (entries es) s ≡ ok s'
    → (q : ℕ) → declared s' q ≡ then_from (declared s q) (entry_for q es)
unfolding register_all entries
register_all-declared path [] s s' h q =
    sym (ap (λ v. declared v q) (ok-injective s s' h)) ∙ sym (then_from_none (declared s q))
register_all-declared path (e ∷ es) s s' h q =
    let (t, one, rest) =
      bind-ok (with_context (text "in service config " ++ path) (register_new s e.port e.backend)) _
        s' h in
    register_all-declared path es t s' rest q
    ∙ ap (λ o. then_from o (entry_for q es))
        (register_new-declared s t e.port e.backend (with_context-ok _ _ t one) q)
    ∙ then_from_assoc (declared s q) _ (entry_for q es)
    ∙ ap (then_from (declared s q)) (first_entry q e es)

read-ServiceFile :
    (l : Loader) (path : Text) (es : List (ℕ × BackendSpec))
    → load_service_file l path ≡ ok es
    → (content : Text) × (file : ServiceFile) × (l.read_to_string path ≡ ok content)
      × (l.parse_services content ≡ ok file)
      × (is_empty file.services ≡ false)
      × (es ≡ entries file.services)
unfolding load_service_file load_toml
read-ServiceFile l path es h =
    let (file, one, rest) =
      bind-ok (load_toml l l.parse_services path (text "service config")) _ es h in
    let (content, two, three) = bind-ok (with_context _ (l.read_to_string path)) _ file one in
    let (full, same) = services_of-full path file es rest in
    (content, file, with_context-ok _ _ content two, with_context-ok _ _ file three, full, same)

pub apply_configs-declared :
    (l : Loader) (paths : List Text) (s s' : Services)
    → apply_configs l paths s ≡ ok s'
    → (all : List ServiceEntry) × FilesSay l paths all
      × ((q : ℕ) → declared s' q ≡ then_from (declared s q) (entry_for q all))
unfolding apply_configs
apply_configs-declared l [] s s' h = (
  [],
  refl,
  λ q. sym (ap (λ v. declared v q) (ok-injective s s' h)) ∙ sym (then_from_none (declared s q)),
)
apply_configs-declared l (path ∷ paths) s s' h =
    let (es, one, rest) = bind-ok (load_service_file l path) _ s' h in
    let (t, two, last) = bind-ok (register_all path es s) _ s' rest in
    let (content, file, read, parsed, full, same) = read-ServiceFile l path es one in
    let (more, say, others) = apply_configs-declared l paths t s' last in
    (
      file.services ++ more,
      (content, file, more, read, parsed, full, say, refl),
      λ q.
          others q
          ∙ ap (λ o. then_from o (entry_for q more))
              (register_all-declared path file.services s t
                (ap (λ xs. register_all path xs s) (sym same) ∙ two) q)
          ∙ then_from_assoc (declared s q) (entry_for q file.services) (entry_for q more)
          ∙ ap (then_from (declared s q)) (sym (entry_for-append q file.services more)),
    )
