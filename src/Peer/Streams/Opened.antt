-- ===== src/Peer/Streams/Opened.antt =====
-- peer.rs: a tunnel that one daemon opens is served by the other.
use ig.Base.{
  false, ℕ, ◌≡◌, refl, ap, ◌∙◌, ◌<◌, Option, none, some, List, ◌++◌, arith, if◌then◌else◌, inl, inr,
  Bool-cases,
}
use ig.Base.Map.{get}
use ig.Base.Text.{Text}
use ig.Failure.{ok, ◌>>=◌}
use ig.Grants.{allows}
use ig.Service.{Backend, backend}
use ig.Peer.{PeerManager}
use ig.Peer.Announce.{handle_bi_stream, object_id}
use ig.Peer.Streams.{
  to_be_bytes, read_port, Network, sent, open_on, open_tunnel, served, handle_stream,
}

read_port-to_be_bytes :
    (port : ℕ) (rest : List ℕ)
    → port < 65536
    → read_port (to_be_bytes port ++ rest) ≡ ok (port, rest)
unfolding read_port to_be_bytes
read_port-to_be_bytes port rest h = ap (λ n. ok (n, rest)) (omega (arith, h))

sent-bytes :
    (opening written : Option Text) (port : ℕ) (bytes : List ℕ)
    → sent opening written port ≡ ok bytes
    → bytes ≡ to_be_bytes port
unfolding sent
sent-bytes (some e) written port bytes h = cc
sent-bytes none (some e) port bytes h = cc
sent-bytes none none port bytes h = cc

open_tunnel-bytes :
    (n : Network) (port : ℕ) (connection : Option ℕ) (bytes : List ℕ)
    → open_tunnel n port connection ≡ ok bytes
    → bytes ≡ to_be_bytes port
unfolding open_tunnel open_on
open_tunnel-bytes n port none bytes h = cc
open_tunnel-bytes n port (some c) bytes h = sent-bytes n.open_bi n.write_all port bytes h

-- What the far daemon makes of a request for a port.
abbrev pub answer : PeerManager → ℕ → ℕ → List ℕ → Option (Backend × List ℕ)
answer m addr port rest =
    if allows m.grants port (object_id (get addr m.objects))
    then some (backend m.services port, rest)
    else none

handle_bi_stream-answer :
    (m : PeerManager) (addr port : ℕ) (rest : List ℕ)
    → served rest (handle_bi_stream addr port m) ≡ answer m addr port rest
unfolding handle_bi_stream served
handle_bi_stream-answer m addr port rest =
    elim (Bool-cases (allows m.grants port (object_id (get addr m.objects)))) [
      | inl e ↦ rw e refl
      | inr e ↦ rw e refl
    ]

-- A tunnel that one daemon opened for a 16-bit port is answered by the other for that port and no
-- other: if the far daemon grants the port to that peer it is served by what backs the port there,
-- which gets all that follows on the stream, and otherwise it gets nothing.
pub open_tunnel-answer :
    (n : Network) (connection : Option ℕ) (port : ℕ) (bytes rest : List ℕ) (addr : ℕ)
    (m : PeerManager)
    → port < 65536
    → open_tunnel n port connection ≡ ok bytes
    → handle_stream addr (bytes ++ rest) m ≡ ok (answer m addr port rest)
unfolding handle_stream
open_tunnel-answer n connection port bytes rest addr m small opened =
    ap (λ bs. handle_stream addr (bs ++ rest) m) (open_tunnel-bytes n port connection bytes opened)
    ∙ ap (λ r. r >>= (λ out. ok (served out.1 (handle_bi_stream addr out.0 m))))
        (read_port-to_be_bytes port rest small)
    ∙ ap ok (handle_bi_stream-answer m addr port rest)

-- A request for a port that the peer may not have gets nothing.
pub handle_stream-refused :
    (addr port : ℕ) (stream rest : List ℕ) (m : PeerManager)
    → read_port stream ≡ ok (port, rest)
    → allows m.grants port (object_id (get addr m.objects)) ≡ false
    → handle_stream addr stream m ≡ ok none
unfolding handle_stream handle_bi_stream served
handle_stream-refused addr port stream rest m read denied = rw read (rw denied refl)
