-- ===== src/Peer/Connection/Denied.antt =====
-- peer.rs: a peer cannot get a tunnel that was not granted by anything it sends.
use ig.Base.{
  ℕ, ◌≡◌, refl, sym, ap, ◌∙◌, false, Option, none, some, List, [], ◌∷◌, All, arith, ◌==◌,
  Bool-cases, Option-cases, inl, inr,
}
use ig.Base.Map.{get, map_option, Map}
use ig.Failure.{ok}
use ig.Grants.{allows}
use ig.Grants.Access.{allows-revoke_grantee}
use ig.Peer.{Peer, PeerManager, World, with_peer, on_object}
use ig.Peer.Binding.{evict, object_connection}
use ig.Peer.Binding.Heap.{get-on_object}
use ig.Peer.Binding.Evicted.{evict-known, evict-shared, get-dropped_objects}
use ig.Peer.Binding.Invariant.{Calm, evict-unknown}
use ig.Peer.Announce.{Incoming, handle_uni_stream, object_id}
use ig.Peer.Announce.Preserved.{handle_uni_stream-keeps}
use ig.Peer.Roster.Sharing.{Sound, touch-Sound, evict-Sound}
use ig.Peer.Streams.{read_port, handle_stream}
use ig.Peer.Streams.Opened.{handle_stream-refused}
use ig.Peer.Connection.{
  Arrival, uni, bi, lost, Tunnelled, tunnelled, accepting, run_on, run_connection,
}

-- The peer at an address, of a key, may not have a port.
pub record Denied (addr id port : ℕ) (m : PeerManager) : Type 0 where
  pub sound : Sound m
  pub owner : object_id (get addr m.objects) ≡ id
  pub refused : allows m.grants port id ≡ false

option-owner :
    (f : Peer → Peer) (o : Option Peer) → Calm f → object_id (map_option f o) ≡ object_id o
option-owner f none calm = refl
option-owner f (some p) calm = (calm p).0

touch-owner :
    (at : ℕ) (f : Peer → Peer) (addr : ℕ) (objects : Map Peer)
    → Calm f
    → object_id (get addr (on_object at f objects)) ≡ object_id (get addr objects)
touch-owner at f addr objects calm =
    ap object_id (get-on_object at f addr objects) ∙ elim (Bool-cases (at == addr)) [
      | inl e ↦ rw e (option-owner f (get addr objects) calm)
      | inr e ↦ rw e refl
    ]

touch-Denied :
    (addr id port at : ℕ) (f : Peer → Peer) (m : PeerManager)
    → Calm f
    → Denied addr id port m
    → Denied addr id port (with_peer at f m)
touch-Denied addr id port at f m calm d = record {
  sound = touch-Sound at f m calm d.sound;
  owner = touch-owner at f addr m.objects calm ∙ d.owner;
  refused = d.refused;
}

evict-owner :
    (w : World) (gone_id addr : ℕ) (m : PeerManager)
    → Sound m
    → object_id (get addr (evict w gone_id m).objects) ≡ object_id (get addr m.objects)
evict-owner w gone_id addr m s = elim (Option-cases (get gone_id m.peers)) [
  | inl h ↦ ap (λ os. object_id (get addr os)) (evict-unknown w gone_id m h).0
  | inr (at, h) ↦
      let (p, there, own, alive) = s.table.points gone_id at h in
      ap (λ os. object_id (get addr os)) (evict-known w gone_id at p m h there).0
      ∙ ap object_id (get-dropped_objects at p addr m.objects there)
      ∙ elim (Bool-cases (at == addr)) [
        | inl e ↦ rw e (sym (ap object_id (ap (λ a. get a m.objects) (ground (arith, e)) ∙ there)))
        | inr e ↦ rw e refl
      ]
]

evict-Denied :
    (w : World) (addr id port gone_id : ℕ) (m : PeerManager)
    → Denied addr id port m
    → Denied addr id port (evict w gone_id m)
evict-Denied w addr id port gone_id m d = record {
  sound = evict-Sound w gone_id m d.sound;
  owner = evict-owner w gone_id addr m d.sound ∙ d.owner;
  refused =
      ap (λ g. allows g port id) (evict-shared w gone_id m).1
      ∙ ground (arith, allows-revoke_grantee m.grants gone_id port id d.sound.grants, d.refused);
}

hear-Denied :
    (w : World) (addr id port at : ℕ) (incoming : Incoming) (m : PeerManager)
    → Denied addr id port m
    → Denied addr id port (handle_uni_stream w at incoming m)
hear-Denied w addr id port at incoming m d =
    handle_uni_stream-keeps w (Denied addr id port) (touch-Denied addr id port)
      (evict-Denied w addr id port) at incoming m d

-- A request for the port gets nothing.
abbrev pub Refused : ℕ → Tunnelled → Type 0
Refused port t = (rest : List ℕ) → read_port t.stream ≡ ok (port, rest) → t.answer ≡ ok none

handle_stream-Refused :
    (addr id port : ℕ) (stream : List ℕ) (m : PeerManager)
    → Denied addr id port m
    → Refused port (record { stream = stream; answer = handle_stream addr stream m })
handle_stream-Refused addr id port stream m d rest read =
    handle_stream-refused addr port stream rest m read
      (ap (allows m.grants port) d.owner ∙ d.refused)

accepting-Refused :
    (w : World) (addr id port : ℕ) (arrivals : List Arrival) (m : PeerManager)
    → Denied addr id port m
    → All (Refused port) (accepting w addr arrivals m).tunnels
unfolding accepting tunnelled
accepting-Refused w addr id port [] m d = tt
accepting-Refused w addr id port (lost e ∷ arrivals) m d = tt
accepting-Refused w addr id port (uni incoming ∷ arrivals) m d =
    accepting-Refused w addr id port arrivals (handle_uni_stream w addr incoming m)
      (hear-Denied w addr id port addr incoming m d)
accepting-Refused w addr id port (bi stream ∷ arrivals) m d =
    (handle_stream-Refused addr id port stream m d, accepting-Refused w addr id port arrivals m d)

run_on-Refused :
    (w : World) (addr id port : ℕ) (arrivals : List Arrival) (m : PeerManager) (o : Option ℕ)
    → Denied addr id port m
    → All (Refused port) (run_on w addr arrivals m o).tunnels
unfolding run_on
run_on-Refused w addr id port arrivals m none d = tt
run_on-Refused w addr id port arrivals m (some c) d = accepting-Refused w addr id port arrivals m d

-- In a sound manager, a peer that is not granted a port when its connection is run gets no tunnel to
-- that port on it, whatever it announces there and whichever tunnels it asks for, in any order.
pub run_connection-Refused :
    (w : World) (addr id port : ℕ) (arrivals : List Arrival) (m : PeerManager)
    → Denied addr id port m
    → All (Refused port) (run_connection w addr arrivals m).tunnels
unfolding run_connection
run_connection-Refused w addr id port arrivals m d =
    run_on-Refused w addr id port arrivals m (object_connection (get addr m.objects)) d
