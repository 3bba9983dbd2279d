-- ===== src/Gateway/Routing.antt =====
-- service.rs, `request_filter`: the route that is picked.
use ig.Base.{
  ℕ, zero, suc, ◌≡◌, refl, true, false, Option, none, some, List, [], ◌∷◌, get_elem?, Bool-cases,
  inl, inr,
}
use ig.Base.Text.{Text}
use ig.Backend.{Route, matches}
use ig.Service.{Gateway}
use ig.Gateway.{pick, position, route, request_filter, filtered, Filtered, goes_on, answered}

-- No route matches.
abbrev pub NoneMatch : List Route → Option Text → Text → Type 0
NoneMatch [] host path = Unit {0}
NoneMatch (r ∷ routes) host path = (matches r host path ≡ false) × NoneMatch routes host path

-- The route at the index matches, and none before it does.
abbrev pub FirstMatch : List Route → ℕ → Option Text → Text → Type 0
FirstMatch [] i host path = ⊥
FirstMatch (r ∷ routes) zero host path = matches r host path ≡ true
FirstMatch (r ∷ routes) (suc i) host path =
    (matches r host path ≡ false) × FirstMatch routes i host path

abbrev Picked : List Route → Option Text → Text → Option ℕ → Type 0
Picked routes host path none = NoneMatch routes host path
Picked routes host path (some i) = FirstMatch routes i host path

position-Picked :
    (routes : List Route) (host : Option Text) (path : Text)
    → Picked routes host path (position routes host path)
unfolding position
position-Picked [] host path = tt
position-Picked (r ∷ routes) host path = elim (Bool-cases (matches r host path)) [
  | inl e ↦ rw e e
  | inr e ↦ rw e (go (position routes host path) (position-Picked routes host path) e)
]
  where
    go :
        (o : Option ℕ)
        → Picked routes host path o
        → matches r host path ≡ false
        → Picked (r ∷ routes) host path (elim o [ none ↦ none | some i ↦ some (suc i) ])
    go none p e = (e, p)
    go (some i) p e = (e, p)

abbrev pub FilterOutcome : Gateway → Option Text → Text → Filtered → Type 0
FilterOutcome g host path (answered status) = (status ≡ 404) × NoneMatch g.routes host path
FilterOutcome g host path (goes_on i) =
    FirstMatch g.routes i host path
    × ((r : Route) × (route g (some i) ≡ some r) × (matches r host path ≡ true))

FirstMatch-get_elem? :
    (routes : List Route) (i : ℕ) (host : Option Text) (path : Text)
    → FirstMatch routes i host path
    → (r : Route) × (get_elem? routes i ≡ some r) × (matches r host path ≡ true)
FirstMatch-get_elem? [] i host path f = absurd f
FirstMatch-get_elem? (r ∷ routes) zero host path f = (r, refl, f)
FirstMatch-get_elem? (r ∷ routes) (suc i) host path f = FirstMatch-get_elem? routes i host path f.1

filtered-FilterOutcome :
    (g : Gateway) (host : Option Text) (path : Text) (o : Option ℕ)
    → Picked g.routes host path o
    → FilterOutcome g host path (filtered o)
unfolding filtered route
filtered-FilterOutcome g host path none p = (refl, p)
filtered-FilterOutcome g host path (some i) p = (p, FirstMatch-get_elem? g.routes i host path p)

-- A request goes on with the first route that matches its host and path, and the index that is kept
-- for it is that of a route; it is answered with 404 exactly where no route matches.
pub request_filter-FilterOutcome :
    (g : Gateway) (host : Option Text) (path : Text)
    → FilterOutcome g host path (request_filter g host path)
unfolding request_filter pick
request_filter-FilterOutcome g host path =
    filtered-FilterOutcome g host path (position g.routes host path)
      (position-Picked g.routes host path)
