-- ===== src/Peer/Announce/Update.antt =====
-- peer.rs, `update_peer_ports`: a whole announcement.
use ig.Base.{
  ℕ, ◌≡◌, refl, Bool, true, false, List, arith, contains, ◌⊎◌, Bool-cases, inl, inr, ap, ◌∙◌,
  is_some, not, none, ◌&&◌, if◌then◌else◌,
}
use ig.Base.Map.{get, contains_key}
use ig.Peer.{Peer, PeerManager, World}
use ig.Peer.Binding.{local_for}
use ig.Peer.Binding.Heap.{get-on_object}
use ig.Peer.Binding.Invariant.{with_peer-IsValid}
use ig.Peer.Announce.{record_ports, update_peer_ports, set_exposed}
use ig.Peer.Announce.Created.{Tried}
use ig.Peer.Announce.Gone.{AllYielded, AllYielded-Since, Yielded-until}
use ig.Peer.Announce.Since.{Known, LiveHolder-Since, Since, Since-trans}
use ig.Peer.Announce.Kept.{with_peer-Since}
use ig.Peer.Announce.Released.{Released, release_gone-Released}
use ig.Peer.Announce.Settled.{Booted, ClaimsOutcome, Tried-kept, claim_ports-ClaimsOutcome}

-- The peer after its announcement was taken in: nothing listens for it but what it announces now,
-- and listeners that it had without an announcement; each of those ports listens or was refused by the operating system where it lands,
-- and a listener that was there already stays.
pub record Updated (w : World) (m : PeerManager) (id addr : ℕ) (p : Peer) (ports : List ℕ)
    (n : PeerManager) : Type 0 where
  pub q : Peer
  pub there : Known n id addr q
  pub exposed : q.exposed ≡ ports
  pub announced :
      (k : ℕ)
      → contains_key k q.bindings ≡ true
      → (contains ports k ≡ true)
        ⊎ ((contains_key k p.bindings ≡ true) × (contains p.exposed k ≡ false))
  pub tried : (k : ℕ) → contains ports k ≡ true → Tried w (local_for m k) k q
  pub kept :
      (k : ℕ)
      → contains ports k ≡ true
      → contains_key k p.bindings ≡ true
      → get k q.bindings ≡ get k p.bindings
  pub others : Since id m n
  pub yielded : AllYielded w m n id ports

finish :
    (w : World) (m n : PeerManager) (id addr : ℕ) (p : Peer) (ports : List ℕ)
    → (r : Released m id addr p p.exposed ports n) → (out : PeerManager × Bool)
    → ClaimsOutcome w n id addr r.q ports out
    → Booted w m id ports (record_ports addr ports out)
      ⊎ Updated w m id addr p ports (record_ports addr ports out)
unfolding record_ports
finish w m n id addr p ports r (o, false) (valid, gone, (k, among, live)) =
    inl (valid, gone, (k, among, LiveHolder-Since w id k m n r.since live))
finish w m n id addr p ports r (o, true) s = inr (record {
  q = set_exposed ports s.q;
  there = record {
    valid = with_peer-IsValid addr (set_exposed ports) o (λ x. (refl, refl)) s.there.valid;
    known = s.there.known;
    at = ground (arith, get-on_object addr (set_exposed ports) addr o.objects, s.there.at);
  };
  exposed = refl;
  announced = λ k bound. elim (Bool-cases (contains ports k)) [
    | inl e ↦ inl e
    | inr e ↦ inr (left_over k bound (s.others k e) (r.bindings k) e)
  ];
  tried = λ k e.
      Tried-kept w (local_for m k) k s.q (set_exposed ports s.q) (λ c. refl)
        (rw (← same k) (s.tried k e));
  kept = λ k e bound.
      let first : get k r.q.bindings ≡ get k p.bindings = ground (arith, r.bindings k, e) in
      s.kept k (ap is_some first ∙ bound) ∙ first;
  others =
      Since-trans id m n _ r.since
        (Since-trans id n o _ s.since (with_peer-Since (set_exposed ports) o id addr s.q s.there));
  yielded = λ other a ne there gone.
      Yielded-until w m o _ id ports other a
        (with_peer-Since (set_exposed ports) o id addr s.q s.there)
        (AllYielded-Since w m n o id ports r.since s.since s.yielded other a ne
          (ap (get other) r.peers ∙ there) gone);
})
  where
    left_over :
        (k : ℕ)
        → contains_key k s.q.bindings ≡ true
        → get k s.q.bindings ≡ get k r.q.bindings
        → get k r.q.bindings
          ≡ (if contains p.exposed k && not (contains ports k) then none else get k p.bindings)
        → contains ports k ≡ false
        → (contains_key k p.bindings ≡ true) × (contains p.exposed k ≡ false)
    left_over k bound e f no_more = (ground arith, ground arith)

    same : (k : ℕ) → local_for n k ≡ local_for m k
    same k = unfold local_for in rw r.since.binds

-- An announcement of a known peer either has the peer evicted, and then another live peer listened
-- where one of the announced ports lands; or it is taken in whole: the peer listens for nothing but
-- what it announced and what it listened for before without having announced it, each announced port
-- listens or was refused by the operating system, listeners for announced ports that were there stay,
-- and another known peer is unchanged or gone. One is gone only if it listened where an announced
-- port lands and did not answer a probe, or its connection was one with another peer that is gone; and
-- a connection was closed only if it was that of a peer that is gone.
pub update_peer_ports-Updated :
    (w : World) (m : PeerManager) (id addr : ℕ) (p : Peer) (ports : List ℕ)
    → Known m id addr p
    → let n = update_peer_ports w addr ports m in
      Booted w m id ports n ⊎ Updated w m id addr p ports n
unfolding update_peer_ports
update_peer_ports-Updated w m id addr p ports k = rw k.at (
    let r = release_gone-Released m id addr p p.exposed ports k in
    finish w m _ id addr p ports r _ (claim_ports-ClaimsOutcome w _ id addr r.q ports r.there))
