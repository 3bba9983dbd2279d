-- ===== src/Backend/Validation.antt =====
-- `validate` against a description of the specs that can work.
use ig.Base.{
  ◌∙◌, ℕ, ◌≡◌, refl, false, Option, none, some, List, [], ◌∷◌, ◌++◌, arith, is_empty, All,
  if◌then◌else◌, ◌⊎◌, inl, inr,
}
use ig.Base.Text.{Text, text, decimal}
use ig.Failure.{
  Result, ok, err, kind_of, invalid, kind_of-note, kind_of-fail, fail, ◌>>◌, with_context,
}
use ig.Backend.{
  Route, BackendSpec, http, tcp, unix, validate, route_validate, routes_validate, target_valid,
}

-- Exactly one target, and no empty `upstream`.
abbrev pub Target : Option Text → Option Text → Type 0
Target upstream socket =
    ((c : ℕ) × (u : Text) × (upstream ≡ some (c ∷ u)) × (socket ≡ none))
    ⊎ ((path : Text) × (upstream ≡ none) × (socket ≡ some path))

abbrev pub CanWork : BackendSpec → Type 0
CanWork (http []) = ⊥
CanWork (http (r ∷ routes)) = All (λ r. Target r.upstream r.unix) (r ∷ routes)
CanWork (tcp u) = is_empty u ≡ false
CanWork (unix path) = is_empty path ≡ false

-- A verdict on a condition: passed where it holds, and otherwise classified as invalid.
abbrev pub Verdict : Type 0 → Result (Unit {0}) → Type 0
Verdict P (ok _) = P
Verdict P (err e) = (¬ P) × (kind_of e ≡ invalid)

target_valid-Verdict : (u p : Option Text) → Verdict (Target u p) (target_valid u p)
unfolding target_valid kind_of
target_valid-Verdict (some []) none = (ground arith, refl)
target_valid-Verdict (some (c ∷ u)) none = inl (c, u, refl, refl)
target_valid-Verdict none (some path) = inr (path, refl, refl)
target_valid-Verdict none none = (ground arith, refl)
target_valid-Verdict (some u) (some path) = (ground arith, refl)

routes_validate-Verdict :
    (port : ℕ) (routes : List Route)
    → Verdict (All (λ r. Target r.upstream r.unix) routes) (routes_validate port routes)
unfolding routes_validate route_validate
routes_validate-Verdict port [] = tt
routes_validate-Verdict port (r ∷ routes) =
    step (target_valid r.upstream r.unix) (target_valid-Verdict r.upstream r.unix)
      (routes_validate port routes) (routes_validate-Verdict port routes)
  where
    step :
        (here : Result (Unit {0}))
        → Verdict (Target r.upstream r.unix) here
        → (rest : Result (Unit {0})) → Verdict (All (λ r. Target r.upstream r.unix) routes) rest
        → Verdict
            (All (λ r. Target r.upstream r.unix) (r ∷ routes))
            (with_context (text "http service on port " ++ decimal port) here >> rest)
    step (ok _) h (ok _) k = (h, k)
    step (ok _) h (err e) k = (λ all. k.0 all.1, k.1)
    step (err e) h rest k = (λ all. h.0 all.0, kind_of-note _ e ∙ h.1)

empty-Verdict :
    (s message : Text)
    → Verdict (is_empty s ≡ false) (if is_empty s then err (fail invalid message) else ok tt)
empty-Verdict [] message = (λ h. cc, kind_of-fail invalid message)
empty-Verdict (c ∷ s) message = refl

-- A backend is accepted exactly if it has routes and each names one target, an upstream that is not
-- empty or any socket, or if it is a plain forward to a target that is not empty. What is refused is
-- refused as invalid.
pub validate-Verdict : (spec : BackendSpec) (port : ℕ) → Verdict (CanWork spec) (validate spec port)
unfolding validate
validate-Verdict (http []) port = (λ h. h, kind_of-fail invalid _)
validate-Verdict (http (r ∷ routes)) port = routes_validate-Verdict port (r ∷ routes)
validate-Verdict (tcp u) port = empty-Verdict u _
validate-Verdict (unix path) port = empty-Verdict path _
