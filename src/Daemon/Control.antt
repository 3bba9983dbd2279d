-- ===== src/Daemon/Control.antt =====
-- daemon.rs, `handle_client`: one request over the control socket.
use ig.Base.{◌≡◌, refl, false, [], ◌∷◌, ◌++◌, arith, contains, ◌==◌, if◌then◌else◌}
use ig.Base.Text.{Text}
use ig.Failure.{Result, ok, err}
use ig.Protocol.{LineCodec, Request, Response}
use ig.Daemon.{Daemon, Host}
use ig.Daemon.Commands.{handle_request}

-- `read_line`: up to the first newline, with it.
unfoldable pub read_line : Text → Text
read_line [] = []
read_line (c ∷ cs) = if c == 10 then c ∷ [] else c ∷ read_line cs

written : Daemon → Result Text → Daemon × Result Text
written d (err e) = (d, err e)
written d (ok json) = (d, ok (json ++ 10 ∷ []))

handled : Host → LineCodec Response → Result Request → Daemon → Daemon × Result Text
unfolding written
handled h responses (err e) d = (d, err e)
handled h responses (ok request) d =
    let reply = handle_request h request d in written reply.0 (responses.encode reply.1)

-- The daemon after, and what is written back; an error closes the connection.
unfoldable pub handle_client :
    Host → LineCodec Request → LineCodec Response → Text → Daemon → Daemon × Result Text
unfolding handled read_line
handle_client h requests responses input d =
    handled h responses (requests.decode (read_line input)) d

pub read_line-whole : (s : Text) → contains s 10 ≡ false → read_line (s ++ 10 ∷ []) ≡ s ++ 10 ∷ []
unfolding read_line
read_line-whole [] h = refl
read_line-whole (c ∷ cs) h = ground (arith, read_line-whole cs)

-- A request that arrives whole is handled, and its response is what is written back.
pub handle_client-reply :
    (h : Host) (requests : LineCodec Request) (responses : LineCodec Response) (request : Request)
    (sent json : Text) (d : Daemon)
    → requests.encode request ≡ ok sent
    → responses.encode (handle_request h request d).1 ≡ ok json
    → handle_client h requests responses (sent ++ 10 ∷ []) d
      ≡ ((handle_request h request d).0, ok (json ++ 10 ∷ []))
unfolding handle_client handled written
handle_client-reply h requests responses request sent json d e f =
    rw
      (
        read_line-whole sent (requests.one_line request sent e),
        requests.round_trip request sent e,
        handled,
        f,
      )
      refl
