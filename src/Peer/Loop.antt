-- ===== src/Peer/Loop.antt =====
-- peer.rs, `peer_connection_loop`: the task that keeps one peer connected. It is a state machine
-- between the points where it waits; what ends a wait is a `Happening`. Other tasks rewrite the
-- peer in the meantime. Times are in seconds.
pub mod Backoff
use ig.Base.{ℕ, ◌*◌, min, Bool, true, false, not, Option, none, some, List, [], ◌∷◌, if◌then◌else◌}
use ig.Peer.{Peer}
use ig.Peer.Binding.{mark_removed}

abbrev pub backoff_initial : ℕ
backoff_initial = 1

abbrev pub backoff_max : ℕ
backoff_max = 60

-- Where the task waits: on the streams of a connection, for its peer to call in, for the backoff to
-- pass, or for a dial to end; or it has returned.
pub data Place : Type 0 where
  running : ℕ → Place
  waiting sleeping dialling returned : Place

pub record Loop : Type 0 where
  pub place : Place
  pub backoff : ℕ
  pub peer : Peer

-- The connection broke, the peer was notified, the backoff passed, or the dial ended.
pub data Happening : Type 0 where
  lost notified slept : Happening
  dialled : Option ℕ → Happening

abbrev at_place : Place → Loop → Loop
at_place place l = record l { place = place }

-- The head of the inner loop, which dials again.
redial : Loop → Loop
redial l = if l.peer.removed then at_place returned l else at_place sleeping l

-- What follows `run_connection`, or no connection.
unconnected : Loop → Loop
unfolding redial
unconnected l =
    if l.peer.removed
    then at_place returned l
    else if not l.peer.dial
    then at_place waiting l
    else redial l

run_or : Option ℕ → Loop → Loop
unfolding unconnected
run_or none l = unconnected l
run_or (some c) l = at_place (running c) l

-- The head of the outer loop.
pub enter : Loop → Loop
unfolding run_or
enter l = run_or l.peer.connection l

-- The permit of `conn_notify` is used up.
abbrev taken : Loop → Loop
taken l = record l { peer = record l.peer { notified = false } }

called_in : Loop → Loop
called_in l = if l.peer.removed then at_place returned l else enter l

-- The connection that was dialled replaces the one there was, and the backoff starts over.
connected : ℕ → Loop → Loop
connected c l =
    enter (record l { backoff = backoff_initial; peer = record l.peer { connection = some c } })

-- A happening that is not what the task waits for changes nothing; `notified` takes a permit.
happens : Place → Happening → Loop → Loop
unfolding unconnected called_in redial connected
happens (running c) lost l = unconnected l
happens (running c) notified l = l
happens (running c) slept l = l
happens (running c) (dialled o) l = l
happens waiting lost l = l
happens waiting notified l = if l.peer.notified then called_in (taken l) else l
happens waiting slept l = l
happens waiting (dialled o) l = l
happens sleeping lost l = l
happens sleeping notified l =
    if l.peer.notified then enter (record (taken l) { backoff = backoff_initial }) else l
happens sleeping slept l = if l.peer.removed then at_place returned l else at_place dialling l
happens sleeping (dialled o) l = l
happens dialling lost l = l
happens dialling notified l = l
happens dialling slept l = l
happens dialling (dialled none) l = redial (record l { backoff = min (l.backoff * 2) backoff_max })
happens dialling (dialled (some c)) l = connected c l
happens returned h l = l

unfoldable pub step : Happening → Loop → Loop
unfolding happens
step h l = happens l.place h l

-- The task of a peer, from its start.
unfoldable pub start : Peer → Loop
start p = enter (record { place = waiting; backoff = backoff_initial; peer = p })

-- Something happens to the task; or another one has the peer call in on a new connection, or evicts
-- it.
pub data Event : Type 0 where
  own : Happening → Event
  replaced : ℕ → Event
  evicted : Event

abbrev pub on_loop : Event → Loop → Loop
on_loop (own h) l = step h l
on_loop (replaced c) l = record l { peer = record l.peer { connection = some c; notified = true } }
on_loop evicted l = record l { peer = mark_removed l.peer }

-- The latest event comes first.
unfoldable pub run : Peer → List Event → Loop
run p [] = start p
run p (e ∷ events) = on_loop e (run p events)
