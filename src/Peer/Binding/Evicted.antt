-- ===== src/Peer/Binding/Evicted.antt =====
-- peer.rs, `evict`: the peer that is evicted, and the others.
use ig.Base.{
  ℕ, ◌≡◌, refl, true, not, ◌&&◌, Option, none, some, List, [], ◌∷◌, arith, ◌==◌, if◌then◌else◌, ap,
  ◌∙◌,
}
use ig.Base.Map.{Map, get, keys, map_option, get-remove}
use ig.Base.Map
use ig.Grants.{allows, revoke_grantee}
use ig.Grants
use ig.Grants.Access.{allows-revoke_grantee}
use ig.Peer.{Peer, PeerManager, World, on_object, with_peer}
use ig.Peer.Binding.{evict, drop_peer, mark_removed, close_taken, object_connection, object_ports}
use ig.Peer.Binding.Heap.{
  get-on_object, release_each-eq, objects_after, get-objects_after, without_ports-all,
}

-- The object of an evicted peer: its loop is told to end, it is disconnected, and it listens
-- nowhere.
abbrev pub gone : Peer → Peer
gone p = record p { removed = true; notified = true; connection = none; bindings = [] }

abbrev pub closed_after : Option ℕ → List ℕ → List ℕ
closed_after none closed = closed
closed_after (some c) closed = c ∷ closed

pub dropped_objects : ℕ → Peer → Map Peer → Map Peer
dropped_objects addr p objects =
    objects_after addr (keys p.bindings) (on_object addr mark_removed objects)

pub get-dropped_objects :
    (addr : ℕ) (p : Peer) (a : ℕ) (objects : Map Peer)
    → get addr objects ≡ some p
    → get a (dropped_objects addr p objects) ≡ (if addr == a then some (gone p) else get a objects)
unfolding dropped_objects
get-dropped_objects addr p a objects h =
    rw (get-objects_after addr (keys p.bindings) a (on_object addr mark_removed objects)) (
      ground (
        arith,
        get-on_object addr mark_removed a objects,
        without_ports-all (keys p.bindings) p.bindings (λ k c. c),
        h,
      ))

close_taken-eq :
    (c : Option ℕ) (m : PeerManager)
    → close_taken c m ≡ record m { closed = closed_after c m.closed }
unfolding close_taken
close_taken-eq none m = refl
close_taken-eq (some c) m = refl

drop_peer-known :
    (id addr : ℕ) (p : Peer) (m : PeerManager)
    → get addr m.objects ≡ some p
    → drop_peer id (some addr) m ≡ record m {
      objects = dropped_objects addr p m.objects;
      peers = Map.remove id m.peers;
      closed = closed_after p.connection m.closed;
    }
unfolding drop_peer dropped_objects
drop_peer-known id addr p m h =
    rw
      (
        h,
        drop_peer,
        close_taken-eq p.connection
            (with_peer addr mark_removed (record m { peers = Map.remove id m.peers })),
        release_each-eq addr (keys p.bindings),
      )
      refl

-- What `evict` does to the parts of the manager, where the peer is known.
pub evict-known :
    (w : World) (id addr : ℕ) (p : Peer) (m : PeerManager)
    → get id m.peers ≡ some addr
    → get addr m.objects ≡ some p
    → let n = evict w id m in
      (n.objects ≡ dropped_objects addr p m.objects)
      × (n.peers ≡ Map.remove id m.peers)
      × (n.closed ≡ closed_after p.connection m.closed)
      × (n.grants ≡ revoke_grantee m.grants id)
      × (n.binds ≡ m.binds)
      × (n.next ≡ m.next)
unfolding evict
evict-known w id addr p m known at =
    rw (known, evict, drop_peer-known id addr p m at) (refl, refl, refl, refl, refl, refl)

-- Where the grants are well formed, evicting a known peer disconnects it, frees every local port it
-- held, and tells its loop to end; its key is forgotten and loses every grant. No other peer, entry
-- or grant changes.
pub evict_complete :
    (w : World) (id addr : ℕ) (p : Peer) (m : PeerManager)
    → Grants.IsValid m.grants
    → get id m.peers ≡ some addr
    → get addr m.objects ≡ some p
    → let n = evict w id m in
      ((a : ℕ) → get a n.objects ≡ (if addr == a then some (gone p) else get a m.objects))
      × ((k : ℕ) → get k n.peers ≡ (if id == k then none else get k m.peers))
      × (n.closed ≡ closed_after p.connection m.closed)
      × ((port peer : ℕ)
          → allows n.grants port peer ≡ (not (id == peer) && allows m.grants port peer))
      × (n.binds ≡ m.binds)
evict_complete w id addr p m valid known at =
    let parts = evict-known w id addr p m known at in
    (
      λ a. ap (get a) parts.0 ∙ get-dropped_objects addr p a m.objects at,
      λ k. ap (get k) parts.1 ∙ get-remove id k m.peers,
      parts.2,
      λ port peer.
          ap (λ g. allows g port peer) parts.3 ∙ allows-revoke_grantee m.grants id port peer valid,
      parts.4,
    )

-- What a manager shares with the daemon, and its record of messages.
abbrev pub SameShared : PeerManager → PeerManager → Type 0
SameShared n m =
    (n.tokens ≡ m.tokens)
    × (n.services ≡ m.services)
    × (n.sent ≡ m.sent)
    × (n.binds ≡ m.binds)
    × (n.pins ≡ m.pins)

drop_peer-shared :
    (id : ℕ) (o : Option ℕ) (m : PeerManager)
    → SameShared (drop_peer id o m) m × ((drop_peer id o m).grants ≡ m.grants)
unfolding drop_peer
drop_peer-shared id none m = ((refl, refl, refl, refl, refl), refl)
drop_peer-shared id (some addr) m =
    let object = get addr m.objects in
    let marked = with_peer addr mark_removed (record m { peers = Map.remove id m.peers }) in
    rw
      (release_each-eq addr (object_ports object), close_taken-eq (object_connection object) marked)
      ((refl, refl, refl, refl, refl), refl)

-- Evicting changes nothing that is shared but the grants and the disk.
pub evict-shared :
    (w : World) (id : ℕ) (m : PeerManager)
    → SameShared (evict w id m) m × ((evict w id m).grants ≡ revoke_grantee m.grants id)
unfolding evict
evict-shared w id m =
    let (same, grants) = drop_peer-shared id (get id m.peers) m in
    (same, ap (λ g. revoke_grantee g id) grants)
