-- ===== src/Protocol.antt =====
-- protocol.rs: what a client asks the daemon, and what it answers.
use ig.Base.{ℕ, ◌≡◌, Bool, false, Option, List, [], ◌∷◌, ◌++◌, contains}
use ig.Base.Text.{Text}
use ig.Failure.{ErrorKind, Error, Result, ok, kind_of, render}
use ig.Backend.{BackendSpec}
use ig.Peer.Outgoing.{PeerInfo, BindingInfo}

pub data Request : Type 0 where
  add_peer : Text → Bool → Request
  remove_peer : Text → Bool → Request
  expose : ℕ → List Text → Option BackendSpec → Bool → Request
  bind : ℕ → Option ℕ → Bool → Request
  unexpose : ℕ → Option Text → Bool → Request
  list : Request
  list_peers : Request
  list_ports : Request
  ticket : Request
  grant_token : Text → Request
  pin : Text → Text → Bool → Request

pub record RemapInfo : Type 0 where
  pub port : ℕ
  pub local : ℕ

pub record ExposedInfo : Type 0 where
  pub port : ℕ
  pub backend : Text

pub record GrantInfo : Type 0 where
  pub port : ℕ
  pub to : Text

pub record ListInfo : Type 0 where
  pub me : Text
  pub peers : List PeerInfo
  pub i_expose : List ExposedInfo
  pub grants : List GrantInfo
  pub bindings : List BindingInfo
  pub remaps : List RemapInfo

pub data Response : Type 0 where
  done : Bool → Text → Response
  ticket : Text → Response
  list : ListInfo → Response
  token : Text → Response
  error : ErrorKind → Text → Response

-- `Response::error`: classified once, and rendered.
unfoldable pub error_response : Error → Response
error_response e = error (kind_of e) (render e)

-- The JSON of one value on a line of its own, which is a library's: it has no newline, and reads back
-- with the newline after it.
pub record LineCodec (A : Type 0) : Type 0 where
  pub encode : A → Result Text
  pub decode : Text → Result A
  pub one_line : (a : A) (s : Text) → encode a ≡ ok s → contains s 10 ≡ false
  pub round_trip : (a : A) (s : Text) → encode a ≡ ok s → decode (s ++ 10 ∷ []) ≡ ok a
