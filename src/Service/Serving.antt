-- ===== src/Service/Serving.antt =====
-- service.rs, `Services::serve` and the stream that the proxy is given.
use ig.Base.{ℕ, zero, suc, ◌+◌, ◌%◌, ◌^◌, Option, List}
use ig.Base.Text.{Text}
use ig.Failure.{Result}
use ig.Tunnel.{Event, Tunnel, forward_to_tcp, forward_to_unix}
use ig.Service.{Services, Backend, backend}
use ig.Service.Addresses.{synthetic_addr}

-- What the proxy's logs and policies see of a stream: its number, and the two addresses.
pub record IrohStream : Type 0 where
  pub id : ℕ
  pub peer_addr : ℕ × ℕ
  pub local_addr : ℕ × ℕ

-- `IrohStream::new`: the stream, and the counter `NEXT_ID` after it, an `i32` that wraps.
unfoldable pub new_stream : ℕ → List ℕ → IrohStream × ℕ
new_stream next_id peer = (
  record { id = next_id; peer_addr = synthetic_addr peer; local_addr = (0x7f000001, 0) },
  (next_id + 1) % 2 ^ 32,
)

-- How a stream was served: by the proxy, in so many calls, or through a tunnel.
pub data Served : Type 0 where
  proxied : IrohStream → ℕ → Served
  tunnelled : Result Tunnel → Served

-- The calls of `process_new`, by how often it hands the stream back.
process_all : ℕ → ℕ
process_all zero = 1
process_all (suc reused) = suc (process_all reused)

-- What a stream meets: how often the proxy hands it back, whether the connect is refused, and what
-- happens in the tunnel.
pub record Fate : Type 0 where
  pub reused : ℕ
  pub refused : Option Text
  pub events : List Event

-- What was served, and the counter after it.
serve_from : ℕ → List ℕ → Fate → Backend → Served × ℕ
unfolding process_all
serve_from next_id peer f (Backend.http gateway routes) =
    let (stream, next) = new_stream next_id peer in (proxied stream (process_all f.reused), next)
serve_from next_id peer f (Backend.tcp upstream) =
    (tunnelled (forward_to_tcp upstream f.refused f.events), next_id)
serve_from next_id peer f (Backend.unix path) =
    (tunnelled (forward_to_unix path f.refused f.events), next_id)

unfoldable pub serve : Services → ℕ → List ℕ → ℕ → Fate → Served × ℕ
unfolding serve_from
serve s port peer next_id f = serve_from next_id peer f (backend s port)
