-- ===== src/Peer/Announce/Released.antt =====
-- peer.rs, `update_peer_ports`: the listeners for ports that are no longer announced.
use ig.Base.{
  ℕ, ◌≡◌, ◌∙◌, refl, not, ◌&&◌, none, List, [], ◌∷◌, arith, if◌then◌else◌, contains, Bool-cases,
  inl, inr,
}
use ig.Base.Map.{get, get-remove}
use ig.Peer.{Peer, PeerManager}
use ig.Peer.Binding.{release_binding, drop_binding}
use ig.Peer.Binding.Heap.{get-on_object}
use ig.Peer.Binding.Invariant.{release_binding-IsValid}
use ig.Peer.Announce.{release_gone}
use ig.Peer.Announce.Since.{Known, Since, Since-refl, Since-trans}
use ig.Peer.Announce.Kept.{with_peer-Since}

-- The peer after the listeners for some ports went.
pub record Released (m : PeerManager) (id addr : ℕ) (p : Peer) (old new_ports : List ℕ)
    (n : PeerManager) : Type 0 where
  pub q : Peer
  pub there : Known n id addr q
  pub bindings :
      (k : ℕ)
      → get k q.bindings
        ≡ (if contains old k && not (contains new_ports k) then none else get k p.bindings)
  pub peers : n.peers ≡ m.peers
  pub since : Since id m n

pub release_one :
    (m : PeerManager) (id addr : ℕ) (p : Peer) (port : ℕ)
    → Known m id addr p
    → Known (release_binding addr port m) id addr (drop_binding port p)
unfolding release_binding
release_one m id addr p port k = record {
  valid = unfold release_binding in release_binding-IsValid addr port m k.valid;
  known = k.known;
  at = ground (arith, get-on_object addr (drop_binding port) addr m.objects, k.at);
}

pub release_gone-Released :
    (m : PeerManager) (id addr : ℕ) (p : Peer) (old new_ports : List ℕ)
    → Known m id addr p
    → Released m id addr p old new_ports (release_gone addr old new_ports m)
unfolding release_gone
release_gone-Released m id addr p [] new_ports k = record {
  q = p;
  there = k;
  bindings = λ j. refl;
  peers = refl;
  since = Since-refl id m;
}
release_gone-Released m id addr p (port ∷ old) new_ports k =
    elim (Bool-cases (contains new_ports port)) [
      | inl e ↦ rw e (
          let r = release_gone-Released m id addr p old new_ports k in
          record {
            q = r.q;
            there = r.there;
            bindings = λ j. ground (arith, r.bindings j);
            peers = r.peers;
            since = r.since;
          })
      | inr e ↦ rw e (
          let r =
            release_gone-Released (release_binding addr port m) id addr (drop_binding port p) old
              new_ports (release_one m id addr p port k) in
          record {
            q = r.q;
            there = r.there;
            bindings = λ j. ground (arith, r.bindings j, get-remove port j p.bindings);
            peers = r.peers ∙ unfold release_binding in refl;
            since =
                Since-trans id m (release_binding addr port m) _
                  (unfold release_binding in with_peer-Since (drop_binding port) m id addr p k)
                  r.since;
          })
    ]
