-- ===== src/Backend/Matching.antt =====
-- Which requests a route takes: the host without its port, and a prefix of the path.
use ig.Base.{
  ℕ, ◌≡◌, refl, true, false, Option, none, some, [], ◌∷◌, ◌++◌, arith, if◌then◌else◌, contains, ◌↔◌,
  sym, subst,
}
use ig.Base.Text.{Text, text_eq_iff, before, starts_with, rsplit_once}
use ig.Backend.{Route, matches, host_matches, prefix_matches, upstream_host, host_part, known_by}

-- `before` stops at the first separator: what it gives has none, and a host with a port loses
-- just that.
before-append :
    (sep : ℕ) (name rest : Text)
    → contains name sep ≡ false
    → before sep (name ++ sep ∷ rest) ≡ name
unfolding before
before-append sep [] rest h = ground arith
before-append sep (c ∷ name) rest h = ground (arith, before-append sep name rest)

starts_with-append : (p s : Text) → starts_with (p ++ s) p ≡ true
unfolding starts_with
starts_with-append [] [] = refl
starts_with-append [] (c ∷ s) = refl
starts_with-append (c ∷ p) s = ground (arith, starts_with-append p s)

starts_with-split : (s p : Text) → starts_with s p ≡ true → (rest : Text) × (s ≡ p ++ rest)
unfolding starts_with
starts_with-split s [] h = (s, refl)
starts_with-split [] (c ∷ p) h = cc
starts_with-split (c ∷ s) (d ∷ p) h =
    let (rest, e) = starts_with-split s p (ground arith) in (rest, ground arith)

-- The host asked for is the wanted one, with its port left off.
abbrev pub HostOk : Option Text → Option Text → Type 0
HostOk none host = Unit
HostOk (some want) none = ⊥
HostOk (some want) (some h) = before b':' h ≡ want

abbrev pub PrefixOk : Option Text → Text → Type 0
PrefixOk none path = Unit
PrefixOk (some prefix) path = (rest : Text) × (path ≡ prefix ++ rest)

host_matches_iff : (want host : Option Text) → (host_matches want host ≡ true) ↔ HostOk want host
unfolding host_matches
host_matches_iff none host = (λ h. tt, λ h. refl)
host_matches_iff (some want) none = (λ h. cc, λ h. absurd h)
host_matches_iff (some want) (some h) = text_eq_iff (before b':' h) want

prefix_matches_iff :
    (prefix : Option Text) (path : Text)
    → (prefix_matches prefix path ≡ true) ↔ PrefixOk prefix path
unfolding prefix_matches
prefix_matches_iff none path = (λ h. tt, λ h. refl)
prefix_matches_iff (some prefix) path = (
  starts_with-split path prefix,
  λ (rest, e). subst (λ s. starts_with s prefix ≡ true) (sym e) (starts_with-append prefix rest),
)

-- A route takes a request exactly if the host without its port is the wanted one, or any host is,
-- and the path begins with the prefix, or any path does.
pub matches_iff :
    (r : Route) (host : Option Text) (path : Text)
    → (matches r host path ≡ true) ↔ (HostOk r.host host × PrefixOk r.prefix path)
unfolding matches
matches_iff r host path = (
  λ h. (
    (host_matches_iff r.host host).0 (ground arith),
    (prefix_matches_iff r.prefix path).0 (ground arith),
  ),
  λ (a, b).
      ground (arith, (host_matches_iff r.host host).1 a, (prefix_matches_iff r.prefix path).1 b),
)

rsplit_once-none : (sep : ℕ) (s : Text) → contains s sep ≡ false → rsplit_once sep s ≡ none
unfolding rsplit_once
rsplit_once-none sep [] h = refl
rsplit_once-none sep (c ∷ s) h = ground (arith, rsplit_once-none sep s)

rsplit_once-append :
    (sep : ℕ) (head tail : Text)
    → contains tail sep ≡ false
    → rsplit_once sep (head ++ sep ∷ tail) ≡ some (head, tail)
unfolding rsplit_once
rsplit_once-append sep [] tail h = ground (arith, rsplit_once-none sep tail h)
rsplit_once-append sep (c ∷ head) tail h = ground (arith, rsplit_once-append sep head tail h)

-- The host of an upstream `head:tail`, where `tail` has no further colon, is `head`, but for a
-- `tail` with a bracket, as in an IPv6 literal without a port, it is the whole upstream. An
-- upstream without a colon is its own host.
pub upstream_host-split :
    (r : Route) (head tail : Text)
    → contains tail b':' ≡ false
    → (upstream_host (record r { upstream = some (head ++ b':' ∷ tail) })
        ≡ (if contains tail b']' then head ++ b':' ∷ tail else head))
      × (upstream_host (record r { upstream = some tail }) ≡ tail)
unfolding upstream_host known_by host_part
upstream_host-split r head tail h = (
  rw (rsplit_once-append b':' head tail h) (ground arith),
  rw (rsplit_once-none b':' tail h) (ground arith),
)
