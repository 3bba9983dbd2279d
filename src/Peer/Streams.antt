-- ===== src/Peer/Streams.antt =====
-- peer.rs and service.rs: a tunnel from the peer that opens it to what serves it.
pub mod Opened
mod Tests
use ig.Base.{
  ℕ, ◌≡◌, ◌+◌, ◌*◌, ◌/◌, ◌%◌, Bool, true, false, Option, none, some, List, [], ◌∷◌, ◌++◌,
  if◌then◌else◌, not,
}
use ig.Base.Map.{get}
use ig.Base.Text.{Text, text}
use ig.Failure.{Error, Result, ok, err, anyhow, note, ◌>>=◌}
use ig.Grants.{allows}
use ig.Service.{Services, Backend, backend}
use ig.Peer.{PeerManager, Peer}
use ig.Peer.Announce.{handle_bi_stream}
use ig.Tunnel
use ig.Tunnel.{Event, forward_to_tcp, forward_to_unix}

-- `u16::to_be_bytes`.
unfoldable pub to_be_bytes : ℕ → List ℕ
to_be_bytes port = port / 256 % 256 ∷ port % 256 ∷ []

-- What `read_exact` of two bytes and `u16::from_be_bytes` give, and the rest of the stream.
unfoldable pub read_port : List ℕ → Result (ℕ × List ℕ)
read_port [] = err (anyhow (text "stream finished early"))
read_port (hi ∷ []) = err (anyhow (text "stream finished early"))
read_port (hi ∷ lo ∷ rest) = ok (hi * 256 + lo, rest)

-- What opening a stream on a connection, and writing to it, answer.
pub record Network : Type 0 where
  pub open_bi : Option Text
  pub write_all : Option Text

sent : Option Text → Option Text → ℕ → Result (List ℕ)
sent (some e) written port = err (note (text "failed to open stream") ∷ anyhow e)
sent none (some e) port = err (anyhow e)
sent none none port = ok (to_be_bytes port)

open_on : Network → ℕ → Option ℕ → Result (List ℕ)
unfolding sent
open_on n port none = err (anyhow (text "peer disconnected"))
open_on n port (some c) = sent n.open_bi n.write_all port

-- The bytes that were sent on the new stream.
unfoldable pub open_tunnel : Network → ℕ → Option ℕ → Result (List ℕ)
unfolding open_on
open_tunnel n port connection = open_on n port connection

-- A request for a tunnel as it arrives: what serves it and the rest of the stream, or nothing where
-- the peer may not have the port.
served : List ℕ → Option Backend → Option (Backend × List ℕ)
served rest none = none
served rest (some b) = some (b, rest)

unfoldable pub handle_stream : ℕ → List ℕ → PeerManager → Result (Option (Backend × List ℕ))
unfolding served
handle_stream addr stream m = do
  (port, rest) ← read_port stream
  ok (served rest (handle_bi_stream addr port m))
