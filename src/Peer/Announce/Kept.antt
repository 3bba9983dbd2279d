-- ===== src/Peer/Announce/Kept.antt =====
-- peer.rs, `update_peer_ports`: rewriting one peer and evicting another, as steps that keep the rest.
use ig.Base.{
  ℕ, ◌≡◌, refl, Bool, true, false, Option, none, some, List, [], ◌∷◌, arith, ◌==◌, contains, ◌||◌,
  ◌⊎◌, Bool-cases, Option-cases, inl, inr, ap, sym, ◌∙◌,
}
use ig.Base.Map.{get, get-remove}
use ig.Peer.{Peer, PeerManager, World, IsValid, with_peer}
use ig.Peer.Binding.{evict}
use ig.Peer.Binding.Heap.{get-on_object}
use ig.Peer.Binding.Evicted.{evict-known, get-dropped_objects, closed_after}
use ig.Peer.Binding.Invariant.{evict-unknown}
use ig.Peer.Announce.Since.{Known, Known-endpoint_id, Since}

-- The object of this peer is rewritten.
pub with_peer-Since :
    (f : Peer → Peer) (m : PeerManager) (id addr : ℕ) (p : Peer)
    → Known m id addr p
    → Since id m (with_peer addr f m)
with_peer-Since f m id addr p k = record {
  table = λ other a h. h;
  same = λ other a ne h.
      let (q, at, own, _) = k.valid.points other a h in
      ground
        (arith, get-on_object addr f a m.objects, at, k.at, own, ne, Known-endpoint_id id addr p k);
  closed = λ c h. h;
  cut = λ c h. inl h;
  binds = refl;
}

closed_after-contains :
    (o : Option ℕ) (closed : List ℕ) (c : ℕ)
    → contains (closed_after o closed) c ≡ true
    → (contains closed c ≡ true) ⊎ (o ≡ some c)
closed_after-contains none closed c h = inl h
closed_after-contains (some d) closed c h = elim (Bool-cases (d == c)) [
  | inl e ↦ inr (ground arith)
  | inr e ↦ inl (ground arith)
]

contains-closed_after :
    (o : Option ℕ) (closed : List ℕ) (c : ℕ)
    → contains closed c ≡ true
    → contains (closed_after o closed) c ≡ true
contains-closed_after none closed c h = h
contains-closed_after (some d) closed c h = ground arith

-- Another peer is evicted.
pub evict-Since :
    (w : World) (m : PeerManager) (id other : ℕ)
    → IsValid m
    → (other == id) ≡ false
    → Since id m (evict w other m)
evict-Since w m id other v differs = elim (Option-cases (get other m.peers)) [
  | inl h ↦
      let (o, t, x, b, c) = evict-unknown w other m h in
      record {
        table = λ k a e. ap (get k) (sym t) ∙ e;
        same = λ k a ne e. ap (get a) o;
        closed = λ d e. rw c e;
        cut = λ d e. inl (ap (λ cs. contains cs d) (sym c) ∙ e);
        binds = b;
      }
  | inr (addr, h) ↦
      let (q, at, own, _) = v.points other addr h in
      let parts = evict-known w other addr q m h at in
      let table : (k a : ℕ)
          → get k (evict w other m).peers ≡ some a
          → (get k m.peers ≡ some a) × ((other == k) ≡ false) =
        λ k a e. left k a (sym (ap (get k) parts.1) ∙ e) in
      record {
        table = λ k a e. (table k a e).0;
        same = λ k a ne e.
            let (before, unlike) = table k a e in
            let (r, r_at, r_own, _) = v.points k a before in
            ap (get a) parts.0
            ∙ ground
                (arith, get-dropped_objects addr q a m.objects at, at, r_at, own, r_own, unlike);
        closed = λ c e. rw (parts.2) (contains-closed_after q.connection m.closed c e);
        cut = λ c e.
            elim (closed_after-contains q.connection m.closed c
              (ap (λ cs. contains cs c) (sym (parts.2)) ∙ e)) [
                | inl old ↦ inl old
                | inr mine ↦ inr (record {
                  key = other;
                  address = addr;
                  peer = q;
                  differs = differs;
                  known = h;
                  at = at;
                  connected = mine;
                  gone = ap (get other) parts.1 ∙ ground (arith, get-remove other other m.peers);
                })
              ];
        binds = parts.4;
      }
]
  where
    left :
        (k a : ℕ)
        → get k (ig.Base.Map.remove other m.peers) ≡ some a
        → (get k m.peers ≡ some a) × ((other == k) ≡ false)
    left k a e = ground (arith, get-remove other k m.peers, e)
