-- ===== src/Peer/Streams/Tests.antt =====
-- peer.rs, samples for tunnels: the first peer of the sample asks for a port.
use ig.Base.{◌≡◌, refl, none, some, [], ◌∷◌, ◌++◌, arith}
use ig.Failure.{ok}
use ig.Peer.Sample.{manager}
use ig.Peer.Streams.{Network, open_tunnel, open_on, sent, to_be_bytes, handle_stream}
use ig.Peer.Streams.Opened.{answer, open_tunnel-answer}

abbrev network : Network
network = record { open_bi = none; write_all = none }

bytes-sent : open_tunnel network 8080 (some 3) ≡ ok (31 ∷ 144 ∷ [])
unfolding open_tunnel open_on sent to_be_bytes
bytes-sent = refl

open_tunnel-answer_example :
    handle_stream 0 ((31 ∷ 144 ∷ []) ++ 71 ∷ 69 ∷ []) manager
    ≡ ok (answer manager 0 8080 (71 ∷ 69 ∷ []))
open_tunnel-answer_example =
    open_tunnel-answer network (some 3) 8080 (31 ∷ 144 ∷ []) (71 ∷ 69 ∷ []) 0 manager (omega arith)
      bytes-sent
