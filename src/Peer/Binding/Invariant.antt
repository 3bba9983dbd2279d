-- ===== src/Peer/Binding/Invariant.antt =====
-- peer.rs: the operations on listeners, and the agreement of the table and the heap of peers.
use ig.Base.{
  ℕ, ◌≡◌, ◌⊎◌, refl, false, Option, none, some, List, [], ◌∷◌, arith, ◌==◌, Bool-cases,
  Option-cases, inl, inr, sym, ap, ◌∙◌,
}
use ig.Base.Map.{get, get-remove, keys-remove-Distinct}
use ig.Peer.{Peer, PeerManager, World, IsValid, with_peer}
use ig.Peer.Binding.{
  evict, release_binding, create_binding, bound, drop_binding, add_binding, release_all,
  recreate_all, set_local, set_bind, addresses, held, local_for, exposes, drop_peer,
}
use ig.Peer.Binding.Heap.{get-on_object}
use ig.Peer.Binding.Evicted.{evict-known, get-dropped_objects}

-- A change that leaves the key of a peer and its fate alone.
abbrev pub Calm : (Peer → Peer) → Type 0
Calm f = (p : Peer) → ((f p).endpoint_id ≡ p.endpoint_id) × ((f p).removed ≡ p.removed)

pub with_peer-IsValid :
    (addr : ℕ) (f : Peer → Peer) (m : PeerManager)
    → Calm f
    → IsValid m
    → IsValid (with_peer addr f m)
with_peer-IsValid addr f m calm v = record {
  one_entry = v.one_entry;
  points = λ id a h.
      let (p, at, same, live) = v.points id a h in
      elim (Bool-cases (addr == a)) [
        | inl e ↦ (
          f p,
          ground (arith, get-on_object addr f a m.objects),
          (calm p).0 ∙ same,
          (calm p).1 ∙ live,
        )
        | inr e ↦ (p, ground (arith, get-on_object addr f a m.objects), same, live)
      ];
  fresh = λ a h. ground (arith, get-on_object addr f a m.objects, v.fresh a h);
}

pub release_binding-IsValid :
    (addr port : ℕ) (m : PeerManager) → IsValid m → IsValid (release_binding addr port m)
unfolding release_binding
release_binding-IsValid addr port m v =
    with_peer-IsValid addr (drop_binding port) m (λ p. (refl, refl)) v

bound-IsValid :
    (addr port : ℕ) (o : Option ℕ) (m : PeerManager) → IsValid m → IsValid (bound addr port o m)
unfolding bound
bound-IsValid addr port none m v = v
bound-IsValid addr port (some local) m v =
    with_peer-IsValid addr (add_binding port local) m (λ p. (refl, refl)) v

-- A bind that fails records nothing; one that succeeds records one listener.
pub create_binding-cases :
    (w : World) (addr port : ℕ) (m : PeerManager)
    → (create_binding w addr port m ≡ m)
      ⊎ ((local : ℕ) × (create_binding w addr port m ≡ with_peer addr (add_binding port local) m))
unfolding create_binding
create_binding-cases w addr port m = go (w.bind_os (held m) (local_for m port))
  where
    go :
        (o : Option ℕ)
        → (bound addr port o m ≡ m)
          ⊎ ((local : ℕ) × (bound addr port o m ≡ with_peer addr (add_binding port local) m))
    go none = inl refl
    go (some local) = inr (local, refl)

pub create_binding-IsValid :
    (w : World) (addr port : ℕ) (m : PeerManager)
    → IsValid m
    → IsValid (create_binding w addr port m)
unfolding create_binding
create_binding-IsValid w addr port m v =
    bound-IsValid addr port (w.bind_os (held m) (local_for m port)) m v

release_all-IsValid :
    (addrs : List ℕ) (port : ℕ) (m : PeerManager) → IsValid m → IsValid (release_all addrs port m)
unfolding release_all
release_all-IsValid [] port m v = v
release_all-IsValid (addr ∷ addrs) port m v =
    release_all-IsValid addrs port (release_binding addr port m)
      (release_binding-IsValid addr port m v)

recreate_all-IsValid :
    (w : World) (addrs : List ℕ) (port : ℕ) (m : PeerManager)
    → IsValid m
    → IsValid (recreate_all w addrs port m)
unfolding recreate_all
recreate_all-IsValid w [] port m v = v
recreate_all-IsValid w (addr ∷ addrs) port m v =
    elim (Bool-cases (exposes port (get addr m.objects))) [
      | inl e ↦ rw e (
          recreate_all-IsValid w addrs port (create_binding w addr port m)
            (create_binding-IsValid w addr port m v))
      | inr e ↦ rw e (recreate_all-IsValid w addrs port m v)
    ]

set_local-IsValid :
    (port : ℕ) (local : Option ℕ) (m : PeerManager) → IsValid m → IsValid (set_local port local m)
set_local-IsValid port none m v = record {
  one_entry = v.one_entry;
  points = v.points;
  fresh = v.fresh;
}
set_local-IsValid port (some local) m v = record {
  one_entry = v.one_entry;
  points = v.points;
  fresh = v.fresh;
}

pub set_bind-IsValid :
    (w : World) (port : ℕ) (local : Option ℕ) (m : PeerManager)
    → IsValid m
    → IsValid (set_bind w port local m)
unfolding set_bind
set_bind-IsValid w port local m v =
    recreate_all-IsValid w (addresses m.peers) port _
      (release_all-IsValid (addresses m.peers) port _ (set_local-IsValid port local m v))

pub evict-unknown :
    (w : World) (id : ℕ) (m : PeerManager)
    → get id m.peers ≡ none
    → ((evict w id m).objects ≡ m.objects)
      × ((evict w id m).peers ≡ m.peers)
      × ((evict w id m).next ≡ m.next)
      × ((evict w id m).binds ≡ m.binds)
      × ((evict w id m).closed ≡ m.closed)
unfolding evict drop_peer
evict-unknown w id m h = rw (h, evict, drop_peer) (refl, refl, refl, refl, refl)

transfer :
    (m n : PeerManager)
    → n.objects ≡ m.objects
    → n.peers ≡ m.peers
    → n.next ≡ m.next
    → IsValid m
    → IsValid n
transfer m n o p x v = record {
  one_entry = rw p v.one_entry;
  points = rw (o, p) v.points;
  fresh = rw (o, x) v.fresh;
}

-- Evicting any key, known or not, keeps the table and the heap in agreement.
pub evict-IsValid : (w : World) (id : ℕ) (m : PeerManager) → IsValid m → IsValid (evict w id m)
evict-IsValid w id m v = elim (Option-cases (get id m.peers)) [
  | inl h ↦ let (o, p, x, _, _) = evict-unknown w id m h in transfer m (evict w id m) o p x v
  | inr (addr, h) ↦ known addr h (v.points id addr h)
]
  where
    known :
        (addr : ℕ)
        → get id m.peers ≡ some addr
        → (p : Peer) × (get addr m.objects ≡ some p) × (p.endpoint_id ≡ id) × (p.removed ≡ false)
        → IsValid (evict w id m)
    known addr h (p, at, same, live) =
        let parts = evict-known w id addr p m h at in
        record {
          one_entry = rw parts.1 (keys-remove-Distinct id m.peers v.one_entry);
          points = λ k a g.
              let before = ap (get k) (sym parts.1) ∙ g in
              let old : get k m.peers ≡ some a = ground (arith, before, get-remove id k m.peers) in
              let (q, there, own, alive) = v.points k a old in
              (
                q,
                ap (get a) parts.0
                    ∙ ground (
                      arith,
                      get-dropped_objects addr p a m.objects at,
                      get-remove id k m.peers,
                      before,
                      there,
                      own,
                      same,
                      at,
                    ),
                own,
                alive,
              );
          fresh = λ a g.
              ap (get a) parts.0
              ∙ ground (
                arith,
                get-dropped_objects addr p a m.objects at,
                v.fresh a (rw (sym parts.5) g),
                at,
              );
        }
