-- ===== src/Daemon/Commands/Retired.antt =====
-- daemon.rs, `unexpose`: the service of a port that may have lost its last grantee.
use mathlib.Core.Bool.{false≢true}
use ig.Base.{
  true, ℕ, ◌≡◌, false, not, ◌&&◌, none, arith, ◌==◌, if◌then◌else◌, contains, Bool-cases, inl, inr,
  ◌∙◌, sym,
}
use ig.Grants
use ig.Grants.{allows}
use ig.Service.{Services}
use ig.Service.Registry.{declared, remove_retires}
use ig.Daemon.{Daemon, retire}
use ig.Grants.Views.{ports-allows}

-- What happens to the services when a port may have lost grantees: that of the port stays while the
-- port has a grantee and goes with the last one, and the others stay.
abbrev pub Retired : ℕ → Services → Daemon → Type 0
Retired port before d' =
    ((q : ℕ) → (port == q) ≡ false → declared d'.manager.services q ≡ declared before q)
    × ((peer : ℕ)
        → allows d'.manager.grants port peer ≡ true
        → declared d'.manager.services port ≡ declared before port)
    × (((peer : ℕ) → allows d'.manager.grants port peer ≡ false)
        → declared d'.manager.services port ≡ none)

pub declared-Retired :
    (port : ℕ) (before : Services) (d' : Daemon)
    → Grants.IsValid d'.manager.grants
    → ((q : ℕ)
        → declared d'.manager.services q ≡ (
            if port == q && not (contains (Grants.ports d'.manager.grants) port)
            then none
            else declared before q))
    → Retired port before d'
declared-Retired port before d' valid e =
    let (listed, granted) = ports-allows d'.manager.grants port valid in
    (
      λ q ne. ground (arith, e q),
      λ peer h. ground (arith, e port, granted (peer, h)),
      λ nobody. elim (Bool-cases (contains (Grants.ports d'.manager.grants) port)) [
        | inl h ↦
            let (peer, allowed) = listed h in absurd (false≢true (sym (nobody peer) ∙ allowed))
        | inr h ↦ ground (arith, e port)
      ],
    )

pub retire-declared :
    (port q : ℕ) (g : Grants.Grants) (s : Services)
    → declared (retire port g s) q
      ≡ (if port == q && not (contains (Grants.ports g) port) then none else declared s q)
unfolding retire
retire-declared port q g s = elim (Bool-cases (contains (Grants.ports g) port)) [
  | inl e ↦ rw (e, retire) (ground (arith, e))
  | inr e ↦ rw (e, retire) (ground (arith, e, (remove_retires s port q).0))
]
