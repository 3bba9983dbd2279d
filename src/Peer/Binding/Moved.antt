-- ===== src/Peer/Binding/Moved.antt =====
-- peer.rs, `set_bind`: where a port listens after it was remapped.
use ig.Base.{
  ℕ, ◌≡◌, refl, Bool, true, false, Option, none, some, List, [], ◌∷◌, arith, ◌==◌, if◌then◌else◌,
  contains, Bool-cases, inl, inr, ap, ◌∙◌, unwrap_or,
}
use ig.Base.Map.{Map, get, get-remove, get-insert}
use ig.Peer.{Peer, PeerManager, World, with_peer}
use ig.Peer.Binding.{
  set_bind, set_local, release_all, release_binding, drop_binding, addresses, local_for,
}
use ig.Peer.Binding.Heap.{get-on_object}
use ig.Peer.Binding.Recreated.{Moved, weaken, recreate_all-MovedAt}

-- The object after the port was released at these addresses.
record Freed (port : ℕ) (here : Bool) (p q : Peer) : Type 0 where
  exposed : q.exposed ≡ p.exposed
  others : (k : ℕ) → (port == k) ≡ false → get k q.bindings ≡ get k p.bindings
  freed : get port q.bindings ≡ (if here then none else get port p.bindings)

release_all-Freed :
    (addrs : List ℕ) (port addr : ℕ) (p : Peer) (m : PeerManager)
    → get addr m.objects ≡ some p
    → let n = release_all addrs port m in
      (q : Peer) × (get addr n.objects ≡ some q)
      × Freed port (contains addrs addr) p q
      × (n.binds ≡ m.binds)
unfolding release_all release_binding
release_all-Freed [] port addr p m at =
    (p, at, record { exposed = refl; others = λ k ne. refl; freed = refl }, refl)
release_all-Freed (a ∷ addrs) port addr p m at = elim (Bool-cases (a == addr)) [
  | inl e ↦
      let (q, there, f, b) =
        release_all-Freed addrs port addr (drop_binding port p) (with_peer a (drop_binding port) m)
          (ground (arith, get-on_object a (drop_binding port) addr m.objects)) in
      (
        q,
        there,
        record {
          exposed = f.exposed;
          others = λ k ne. ground (arith, f.others k ne, get-remove port k p.bindings);
          freed = ground (arith, f.freed, get-remove port port p.bindings);
        },
        b,
      )
  | inr e ↦
      let (q, there, f, b) =
        release_all-Freed addrs port addr p (with_peer a (drop_binding port) m)
          (ground (arith, get-on_object a (drop_binding port) addr m.objects)) in
      (
        q,
        there,
        record { exposed = f.exposed; others = f.others; freed = ground (arith, f.freed) },
        b,
      )
]

contains-addresses :
    (id addr : ℕ) (peers : Map ℕ)
    → get id peers ≡ some addr
    → contains (addresses peers) addr ≡ true
unfolding get addresses
contains-addresses id addr [] h = cc
contains-addresses id addr ((k, a) ∷ peers) h = ground (arith, contains-addresses id addr peers)

local_for-binds :
    (port : ℕ) (m n : PeerManager) → m.binds ≡ n.binds → local_for m port ≡ local_for n port
unfolding local_for
local_for-binds port m n e = rw e

local_for-set_local :
    (port : ℕ) (local : Option ℕ) (m : PeerManager)
    → local_for (set_local port local m) port ≡ unwrap_or local port
unfolding local_for
local_for-set_local port none m = ground (arith, get-remove port port m.binds)
local_for-set_local port (some local) m = ground (arith, get-insert port port local m.binds)

objects-set_local :
    (port : ℕ) (local : Option ℕ) (m : PeerManager)
    → ((set_local port local m).objects ≡ m.objects) × ((set_local port local m).peers ≡ m.peers)
objects-set_local port none m = (refl, refl)
objects-set_local port (some local) m = (refl, refl)

-- A remap takes effect at once for every known peer: afterwards the port listens nowhere, or where
-- the operating system put it for the new local port. If the peer announced the port, it listens or
-- the operating system refused. The other ports of the peer stay.
pub set_bind-Moved :
    (w : World) (port : ℕ) (local : Option ℕ) (m : PeerManager) (id addr : ℕ) (p : Peer)
    → get id m.peers ≡ some addr
    → get addr m.objects ≡ some p
    → (q : Peer) × (get addr (set_bind w port local m).objects ≡ some q)
      × Moved w port (unwrap_or local port) (contains p.exposed port) p q
      × (local_for (set_bind w port local m) port ≡ unwrap_or local port)
unfolding set_bind
set_bind-Moved w port local m id addr p known at =
    let (objects, peers) = objects-set_local port local m in
    let (q, there, f, b) =
      release_all-Freed (addresses m.peers) port addr p (set_local port local m)
        (ap (get addr) objects ∙ at) in
    let listed = contains-addresses id addr m.peers known in
    weaken w port (unwrap_or local port) _ _ addr p _ (λ e. ground (arith, listed))
      (recreate_all-MovedAt w port (unwrap_or local port) false (addresses m.peers) addr p _ (
        q,
        there,
        record {
          exposed = f.exposed;
          others = f.others;
          lands = inl (ground (arith, f.freed, listed));
          tried = λ e. cc;
        },
        local_for-binds port _ (set_local port local m) b ∙ local_for-set_local port local m,
      ))
