-- ===== src/Peer/Announce/Gone.antt =====
-- peer.rs, `update_peer_ports`: why another peer is gone after an announcement.

use mathlib.Core.Bool.{false≢true}
use mathlib.Core.Option.{some-injective}
use ig.Base.{
  ℕ, ◌≡◌, true, false, none, some, List, ◌∷◌, arith, ◌==◌, contains, ◌⊎◌, Bool-cases, inl, inr, ap,
  sym, ◌∙◌, Option-cases,
}
use ig.Base.Map.{get}
use ig.Peer.{Peer, PeerManager, World}
use ig.Peer.Binding.{probe_peer, local_for}
use ig.Peer.Binding.Holder.{HoldsAs}
use ig.Peer.Binding.Liveness.{probe_peer-Cut}
use ig.Peer.Announce.Since.{no_value, Since, CutOff, CutOff-Since, CutOff-until}

-- This connection of a peer went with another peer that is gone.
abbrev pub SharedLoss : PeerManager → PeerManager → ℕ → ℕ → ℕ → Type 0
SharedLoss m n id other a =
    (p : Peer) × (c : ℕ) × (x : CutOff id m n c) × (get a m.objects ≡ some p)
    × (p.connection ≡ some c)
    × ((x.key == other) ≡ false)

-- The peer does not answer a probe, or its connection was one with a peer that is gone.
abbrev pub Silent : World → PeerManager → PeerManager → ℕ → ℕ → ℕ → Type 0
Silent w m n id other a = (probe_peer w m a ≡ false) ⊎ SharedLoss m n id other a

-- The other peer listened where one of these ports lands, and was silent.
abbrev pub Yielded : World → PeerManager → PeerManager → ℕ → List ℕ → ℕ → ℕ → Type 0
Yielded w m n id ports other a =
    (port : ℕ) × (contains ports port ≡ true)
    × HoldsAs m.objects m.peers (local_for m port) id other a
    × Silent w m n id other a

-- What has another peer gone in one claim.
abbrev pub Stale : World → PeerManager → ℕ → ℕ → ℕ → ℕ → Type 0
Stale w m id port other a =
    HoldsAs m.objects m.peers (local_for m port) id other a × (probe_peer w m a ≡ false)

-- Every other peer that was known and is gone yielded.
abbrev pub AllYielded : World → PeerManager → PeerManager → ℕ → List ℕ → Type 0
AllYielded w m n id ports =
    (other a : ℕ)
    → (other == id) ≡ false
    → get other m.peers ≡ some a
    → get other n.peers ≡ none
    → Yielded w m n id ports other a

holds-Since :
    (l m : PeerManager) (id port other a : ℕ)
    → Since id l m
    → HoldsAs m.objects m.peers (local_for m port) id other a
    → HoldsAs l.objects l.peers (local_for l port) id other a
holds-Since l m id port other a s (there, ne, holding) =
    let same = s.same other a ne there in
    let port_same : local_for m port ≡ local_for l port = unfold local_for in rw s.binds in
    (s.table other a there, ne, rw (← port_same, ← same) holding)

-- A peer that is silent at a later moment is silent, or lost its connection to a peer that is gone.
Silent-Since :
    (w : World) (l m n : PeerManager) (id other a : ℕ)
    → Since id l m
    → Since id m n
    → (other == id) ≡ false
    → get other m.peers ≡ some a
    → Silent w m n id other a
    → Silent w l n id other a
Silent-Since w l m n id other a s t ne there (inr (p, c, x, at, connected, unlike)) =
    let (y, key) = CutOff-Since id l m n c s x in
    inr (p, c, y, sym (s.same other a ne there) ∙ at, connected, ap (λ k. k == other) key ∙ unlike)
Silent-Since w l m n id other a s t ne there (inl quiet) = elim (Bool-cases (probe_peer w l a)) [
  | inr e ↦ inl e
  | inl live ↦
      let (p, c, at, connected, open_then, closed_now) =
        probe_peer-Cut w l m a (s.same other a ne there) live quiet in
      elim (s.cut c closed_now) [
        | inl e ↦ absurd (false≢true (sym open_then ∙ e))
        | inr x ↦
            let (y, key) = CutOff-until id l m n c t x in
            inr (p, c, y, at, connected, ap (λ k. k == other) key ∙ apart x)
      ]
]
  where
    apart : {c : ℕ} (x : CutOff id l m c) → (x.key == other) ≡ false
    apart x = elim (Bool-cases (x.key == other)) [
      | inr e ↦ e
      | inl e ↦
          let same : x.key ≡ other = ground arith in
          absurd (no_value (sym x.gone ∙ ap (λ k. get k m.peers) same ∙ there))
    ]

-- A reason at a later moment is one.
pub AllYielded-Since :
    (w : World) (l m n : PeerManager) (id : ℕ) (ports : List ℕ)
    → Since id l m
    → Since id m n
    → AllYielded w m n id ports
    → (other a : ℕ) → (other == id) ≡ false
    → get other m.peers ≡ some a
    → get other n.peers ≡ none
    → Yielded w l n id ports other a
AllYielded-Since w l m n id ports s t all other a ne there gone =
    let (port, among, holds, silent) = all other a ne there gone in
    (
      port,
      among,
      holds-Since l m id port other a s holds,
      Silent-Since w l m n id other a s t ne there silent,
    )

Silent-until :
    (w : World) (m n o : PeerManager) (id other a : ℕ)
    → Since id n o
    → Silent w m n id other a
    → Silent w m o id other a
Silent-until w m n o id other a s (inl quiet) = inl quiet
Silent-until w m n o id other a s (inr (p, c, x, at, connected, unlike)) =
    let (y, key) = CutOff-until id m n o c s x in
    inr (p, c, y, at, connected, ap (λ k. k == other) key ∙ unlike)

pub Yielded-until :
    (w : World) (m n o : PeerManager) (id : ℕ) (ports : List ℕ) (other a : ℕ)
    → Since id n o
    → Yielded w m n id ports other a
    → Yielded w m o id ports other a
Yielded-until w m n o id ports other a s (port, among, holds, silent) =
    (port, among, holds, Silent-until w m n o id other a s silent)

pub more_ports :
    (w : World) (m n : PeerManager) (id port : ℕ) (ports : List ℕ) (other a : ℕ)
    → Yielded w m n id ports other a
    → Yielded w m n id (port ∷ ports) other a
more_ports w m n id port ports other a (k, among, holds, silent) = (k, ground arith, holds, silent)

-- One claim, and then those of the other ports.
pub AllYielded-join :
    (w : World) (l m n : PeerManager) (id port : ℕ) (ports : List ℕ)
    → Since id l m
    → Since id m n
    → ((other a : ℕ)
        → get other l.peers ≡ some a
        → get other m.peers ≡ none
        → Stale w l id port other a)
    → AllYielded w m n id ports
    → AllYielded w l n id (port ∷ ports)
AllYielded-join w l m n id port ports s t now later other a ne there gone =
    elim (Option-cases (get other m.peers)) [
      | inl e ↦ let (holds, quiet) = now other a there e in (port, ground arith, holds, inl quiet)
      | inr (b, e) ↦
          let same : b ≡ a = some-injective _ _ (sym (s.table other b e) ∙ there) in
          let still : get other m.peers ≡ some a = e ∙ ap some same in
          more_ports w l n id port ports other a
            (AllYielded-Since w l m n id ports s t later other a ne still gone)
    ]
