-- ===== src/Peer/Connection.antt =====
-- peer.rs, `run_connection`: what arrives on the connection of one peer, in order.
pub mod Denied
mod Tests
use ig.Base.{ℕ, ◌≡◌, Option, none, some, List, [], ◌∷◌}
use ig.Base.Map.{get}
use ig.Base.Text.{Text, text}
use ig.Failure.{Result, ok, err, anyhow}
use ig.Service.{Backend}
use ig.Peer.{PeerManager, World, Peer}
use ig.Peer.Binding.{object_connection}
use ig.Peer.Announce.{Incoming, handle_uni_stream}
use ig.Peer.Streams.{handle_stream}

-- A message, a stream with what is on it, or the end of the connection.
pub data Arrival : Type 0 where
  uni : Incoming → Arrival
  bi : List ℕ → Arrival
  lost : Text → Arrival

-- A request for a tunnel, and its answer.
pub record Tunnelled : Type 0 where
  pub stream : List ℕ
  pub answer : Result (Option (Backend × List ℕ))

-- The manager after, the tunnels in order, and the error that ended it, if it has ended.
pub record Connected : Type 0 where
  pub manager : PeerManager
  pub tunnels : List Tunnelled
  pub ended : Option Text

tunnelled : Tunnelled → Connected → Connected
tunnelled t c = record { manager = c.manager; tunnels = t ∷ c.tunnels; ended = c.ended }

-- Every stream is a task of its own in the source; here it is one step.
unfoldable pub accepting : World → ℕ → List Arrival → PeerManager → Connected
unfolding tunnelled
accepting w addr [] m = record { manager = m; tunnels = []; ended = none }
accepting w addr (lost e ∷ arrivals) m = record { manager = m; tunnels = []; ended = some e }
accepting w addr (uni incoming ∷ arrivals) m =
    accepting w addr arrivals (handle_uni_stream w addr incoming m)
accepting w addr (bi stream ∷ arrivals) m =
    tunnelled (record { stream = stream; answer = handle_stream addr stream m })
      (accepting w addr arrivals m)

run_on : World → ℕ → List Arrival → PeerManager → Option ℕ → Connected
unfolding accepting
run_on w addr arrivals m none = record {
  manager = m;
  tunnels = [];
  ended = some (text "disconnected");
}
run_on w addr arrivals m (some c) = accepting w addr arrivals m

unfoldable pub run_connection : World → ℕ → List Arrival → PeerManager → Connected
unfolding run_on
run_connection w addr arrivals m = run_on w addr arrivals m (object_connection (get addr m.objects))
