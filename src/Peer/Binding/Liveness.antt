-- ===== src/Peer/Binding/Liveness.antt =====
-- peer.rs, `probe_peer`: probes before and after connections were closed.
use ig.Base.{ℕ, ◌≡◌, refl, true, false, Option, none, some, arith, contains, inl, inr, Bool-cases}
use ig.Base.Map.{get}
use ig.Peer.{Peer, PeerManager, World, is_open}
use ig.Peer.Binding.{probe_peer, probe_object, probe_connection}

-- Each connection that is closed in `m` is closed in `n`.
abbrev pub ClosedIn : PeerManager → PeerManager → Type 0
ClosedIn m n = (c : ℕ) → contains m.closed c ≡ true → contains n.closed c ≡ true

is_open-ClosedIn :
    (w : World) (m n : PeerManager) (c : ℕ)
    → ClosedIn m n
    → is_open w n c ≡ true
    → is_open w m c ≡ true
is_open-ClosedIn w m n c h live = elim (Bool-cases (contains m.closed c)) [
  | inl e ↦ ground (arith, h c e)
  | inr e ↦ ground arith
]

probe_connection-ClosedIn :
    (w : World) (m n : PeerManager) (o : Option ℕ)
    → ClosedIn m n
    → probe_connection w n o ≡ true
    → probe_connection w m o ≡ true
unfolding probe_connection
probe_connection-ClosedIn w m n none h live = live
probe_connection-ClosedIn w m n (some c) h live =
    ground (arith, is_open-ClosedIn w m n c h (ground arith))

probe_object-ClosedIn :
    (w : World) (m n : PeerManager) (o : Option Peer)
    → ClosedIn m n
    → probe_object w n o ≡ true
    → probe_object w m o ≡ true
unfolding probe_object
probe_object-ClosedIn w m n none h live = live
probe_object-ClosedIn w m n (some p) h live = probe_connection-ClosedIn w m n p.connection h live

pub probe_peer-ClosedIn :
    (w : World) (m n : PeerManager) (a : ℕ)
    → get a n.objects ≡ get a m.objects
    → ClosedIn m n
    → probe_peer w n a ≡ true
    → probe_peer w m a ≡ true
unfolding probe_peer
probe_peer-ClosedIn w m n a same h live =
    probe_object-ClosedIn w m n (get a m.objects) h (rw (← same) live)

-- The connection that was closed between two moments.
abbrev pub Cut : PeerManager → PeerManager → Option Peer → Type 0
Cut m n o =
    (q : Peer) × (c : ℕ) × (o ≡ some q)
    × (q.connection ≡ some c)
    × (contains m.closed c ≡ false)
    × (contains n.closed c ≡ true)

probe_connection-Cut :
    (w : World) (m n : PeerManager) (q : Peer) (o : Option ℕ)
    → q.connection ≡ o
    → probe_connection w m o ≡ true
    → probe_connection w n o ≡ false
    → Cut m n (some q)
unfolding probe_connection
probe_connection-Cut w m n q none e live quiet = cc
probe_connection-Cut w m n q (some c) e live quiet = (q, c, refl, e, ground arith, ground arith)

probe_object-Cut :
    (w : World) (m n : PeerManager) (o : Option Peer)
    → probe_object w m o ≡ true
    → probe_object w n o ≡ false
    → Cut m n o
unfolding probe_object
probe_object-Cut w m n none live quiet = cc
probe_object-Cut w m n (some q) live quiet =
    probe_connection-Cut w m n q q.connection refl live quiet

-- A peer that answered and, unchanged, does not any more has lost its connection.
pub probe_peer-Cut :
    (w : World) (m n : PeerManager) (a : ℕ)
    → get a n.objects ≡ get a m.objects
    → probe_peer w m a ≡ true
    → probe_peer w n a ≡ false
    → Cut m n (get a m.objects)
unfolding probe_peer
probe_peer-Cut w m n a same live quiet =
    probe_object-Cut w m n (get a m.objects) live (rw (← same) quiet)
