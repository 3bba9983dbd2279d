-- ===== src/Peer/Roster/Clear.antt =====
-- peer.rs, `handle_enrollment`: the ports that were announced before the token.
use mathlib.Core.Option.{some-injective}
use ig.Base.{
  ◌≢◌, ◌⊎◌, ◌||◌, Bool, true, Distinct, contains, [], ◌==◌, ℕ, ◌≡◌, refl, false, Option, none, some,
  List, ◌∷◌, arith, Bool-cases, inl, inr, ap, sym, ◌∙◌,
}
use ig.Enroll.{Tokens}
use ig.Peer.{PeerManager, World}
use ig.Base.Map.{keys}
use ig.Peer.Binding.{local_for, probe_peer, find_holder}
use ig.Peer.Binding.Holder.{HoldsAs, Found, find_holder-Found}
use ig.Peer.Roster.{early_collides, collides, live_holder}

left_false : (a b : Bool) → (a || b) ≡ false → a ≡ false
left_false true b h = cc
left_false false b h = refl

right_false : (a b : Bool) → (a || b) ≡ false → b ≡ false
right_false true b h = cc
right_false false b h = h

-- No other known peer listens where the port lands, or one that does gives no answer to a probe.
abbrev pub Clear : World → PeerManager → ℕ → ℕ → Type 0
Clear w m id port =
    ((other addr : ℕ) → ¬ HoldsAs m.objects m.peers (local_for m port) id other addr)
    ⊎ ((other : ℕ) × (addr : ℕ) × HoldsAs m.objects m.peers (local_for m port) id other addr
        × (probe_peer w m addr ≡ false))

holder-Clear :
    (w : World) (m : PeerManager) (id port : ℕ) (o : Option ℕ)
    → Found m (local_for m port) id o
    → live_holder w m o ≡ false
    → local_for m port ≢ 0
    → Clear w m id port
unfolding live_holder
holder-Clear w m id port none f quiet nonzero = inl (f nonzero)
holder-Clear w m id port (some addr) (_, (other, holds)) quiet nonzero =
    inr (other, addr, holds, quiet)

collides-Clear :
    (w : World) (m : PeerManager) (id : ℕ) (ports : List ℕ)
    → Distinct (keys m.peers)
    → collides w id ports m ≡ false
    → (port : ℕ) → contains ports port ≡ true
    → local_for m port ≢ 0
    → Clear w m id port
unfolding collides
collides-Clear w m id [] d h port among nonzero = cc
collides-Clear w m id (p ∷ ports) d h port among nonzero = elim (Bool-cases (p == port)) [
  | inl e ↦
      let same : p ≡ port = ground arith in
      holder-Clear w m id port (find_holder m (local_for m port) id)
        (find_holder-Found m (local_for m port) id d)
        (ap (λ k. live_holder w m (find_holder m (local_for m k) id)) (sym same) ∙ left_false _ _ h)
        nonzero
  | inr e ↦ collides-Clear w m id ports d (right_false _ _ h) port (ground arith) nonzero
]

early-Clear :
    (w : World) (m : PeerManager) (id : ℕ) (early : Option (List ℕ))
    → Distinct (keys m.peers)
    → early_collides w id early m ≡ false
    → (ports : List ℕ) → early ≡ some ports
    → (port : ℕ) → contains ports port ≡ true
    → local_for m port ≢ 0
    → Clear w m id port
unfolding early_collides
early-Clear w m id none d h ports e port among = cc
early-Clear w m id (some early) d h ports e port among =
    collides-Clear w m id early d h port
      (ap (λ ps. contains ps port) (some-injective early ports e) ∙ among)

-- The tokens are no part of it.
Clear-tokens :
    (w : World) (m : PeerManager) (tokens : Tokens) (id port : ℕ)
    → (local_for (record m { tokens = tokens }) port ≡ local_for m port)
      × (Clear w (record m { tokens = tokens }) id port → Clear w m id port)
unfolding local_for probe_peer
Clear-tokens w m tokens id port = (refl, λ c. c)

pub early-Clear-before :
    (w : World) (m : PeerManager) (tokens : Tokens) (id : ℕ) (early : Option (List ℕ))
    → Distinct (keys m.peers)
    → early_collides w id early (record m { tokens = tokens }) ≡ false
    → (ports : List ℕ) → early ≡ some ports
    → (port : ℕ) → contains ports port ≡ true
    → local_for m port ≢ 0
    → Clear w m id port
early-Clear-before w m tokens id early d h ports e port among nonzero =
    let (same, back) = Clear-tokens w m tokens id port in
    back (early-Clear w _ id early d h ports e port among (λ z. nonzero (sym same ∙ z)))
