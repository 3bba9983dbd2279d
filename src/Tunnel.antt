-- ===== src/Tunnel.antt =====
-- tunnel.rs: forwarding between a local stream and the streams of a peer. What the copies of one
-- tunnel do, and what the accept loop meets, are sequences of events.
pub mod Delivery
mod Tests
use ig.Base.{
  ℕ, ◌≡◌, Bool, true, false, Option, none, some, List, [], ◌∷◌, ◌++◌, take, drop, is_empty,
  if◌then◌else◌,
}
use ig.Base.Text.{Text, text, decimal}
use ig.Failure.{Error, Result, ok, err, anyhow, note}

-- One direction: the bytes that were read so far, those of them that were not yet written, and the
-- bytes that were written.
pub record Way : Type 0 where
  pub taken : List ℕ
  pub held : List ℕ
  pub passed : List ℕ

abbrev pub idle : Way
idle = record { taken = []; held = []; passed = [] }

-- What `tokio::io::copy`, which is other code, is documented to do: it reads, it writes the oldest bytes that it holds, it ends at the end
-- of its input, which it does only with nothing held, or it ends with an error.
pub data Copying : Type 0 where
  reads : List ℕ → Copying
  writes : ℕ → Copying
  ends : Copying
  fails : Copying

pub data Event : Type 0 where
  local_to_quic quic_to_local : Copying → Event

-- `over` is set when `select!` has returned, and both copies are dropped; `finished` is set by
-- `quic_send.finish()`.
pub record Tunnel : Type 0 where
  pub up : Way
  pub down : Way
  pub finished : Bool
  pub over : Bool

abbrev pub opened : Tunnel
opened = record { up = idle; down = idle; finished = false; over = false }

unfoldable pub copy : Copying → Way → Way
copy (reads bytes) w = record w { taken = w.taken ++ bytes; held = w.held ++ bytes }
copy (writes n) w = record w { held = drop n w.held; passed = w.passed ++ take n w.held }
copy ends w = w
copy fails w = w

-- Whether the copy returns.
unfoldable pub returns : Copying → Way → Bool
returns (reads bytes) w = false
returns (writes n) w = false
returns ends w = is_empty w.held
returns fails w = true

-- `local_to_quic` finishes the stream of the peer when its copy has returned, with whatever result.
unfoldable pub happens : Event → Tunnel → Tunnel
happens (local_to_quic c) t =
    let ended = returns c t.up in
    record { up = copy c t.up; down = t.down; finished = ended; over = ended }
happens (quic_to_local c) t = record {
  up = t.up;
  down = copy c t.down;
  finished = t.finished;
  over = returns c t.down;
}

-- `select!` returns with the first copy that does.
unfoldable pub step : Event → Tunnel → Tunnel
unfolding happens
step e t = if t.over then t else happens e t

-- `forward_bidirectional`, through the events so far.
unfoldable pub forward_bidirectional : List Event → Tunnel → Tunnel
unfolding step
forward_bidirectional [] t = t
forward_bidirectional (e ∷ es) t = forward_bidirectional es (step e t)

connected : Text → Option Text → List Event → Result Tunnel
unfolding forward_bidirectional
connected upstream (some e) events =
    err (note (text "failed to connect to " ++ upstream) ∷ anyhow e)
connected upstream none events = ok (forward_bidirectional events opened)

-- The answer of the system to the connect, and the events after it.
unfoldable pub forward_to_tcp : Text → Option Text → List Event → Result Tunnel
unfolding connected
forward_to_tcp upstream refused events = connected upstream refused events

unfoldable pub forward_to_unix : Text → Option Text → List Event → Result Tunnel
unfolding connected
forward_to_unix path refused events = connected path refused events

-- The error of the system, or the listener.
unfoldable pub bind_listener : ℕ → Option Text → Result ℕ
bind_listener port (some e) =
    err (note (text "failed to bind 127.0.0.1:" ++ decimal port) ∷ anyhow e)
bind_listener port none = ok port

-- What the listener meets: a connection, with what opening a tunnel for it answers and what happens
-- in the tunnel, or an error of `accept`.
pub data Accepted : Type 0 where
  client : Result (Unit {0}) → List Event → Accepted
  broken : Text → Accepted

one_more : List Event → List Tunnel × Result (Unit {0}) → List Tunnel × Result (Unit {0})
unfolding forward_bidirectional
one_more events (tunnels, r) = (forward_bidirectional events opened ∷ tunnels, r)

-- The tunnels that were started, in order, and how the loop ended: `ok` where it goes on waiting.
unfoldable pub serve_listener : List Accepted → List Tunnel × Result (Unit {0})
unfolding one_more
serve_listener [] = ([], ok tt)
serve_listener (broken e ∷ more) = ([], err (anyhow e))
serve_listener (client (err e) events ∷ more) = serve_listener more
serve_listener (client (ok _) events ∷ more) = one_more events (serve_listener more)
