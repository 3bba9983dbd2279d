-- ===== src/Tunnel/Tests.antt =====
-- tunnel.rs: samples. A client sends a request, closes its half, and the answer comes too late.
use ig.Base.{◌≡◌, refl, true, false, List, [], ◌∷◌, ◌++◌, is_empty}
use ig.Tunnel.{
  Event, local_to_quic, quic_to_local, reads, writes, ends, opened, forward_bidirectional, step,
  happens, copy, returns,
}
use ig.Tunnel.Delivery.{HalfClosed, forward_bidirectional-HalfClosed}

abbrev request : List Event
request = local_to_quic (reads (1 ∷ 2 ∷ 3 ∷ [])) ∷ local_to_quic (writes 3) ∷ []

abbrev answer : List Event
answer = quic_to_local (reads (7 ∷ 8 ∷ [])) ∷ quic_to_local (writes 1) ∷ []

request-running : (forward_bidirectional request opened).over ≡ false
unfolding forward_bidirectional step happens copy returns
request-running = refl

request-sent : is_empty (forward_bidirectional request opened).up.held ≡ true
unfolding forward_bidirectional step happens copy returns
request-sent = refl

forward_bidirectional-HalfClosed_example :
    HalfClosed
      (forward_bidirectional request opened)
      (forward_bidirectional (request ++ local_to_quic ends ∷ answer) opened)
forward_bidirectional-HalfClosed_example =
    forward_bidirectional-HalfClosed request answer request-running request-sent
