-- ===== src/Client/Answer.antt =====
-- protocol.rs and client.rs: the JSON of what a listing and an answer carry.
use ig.Base.{Bool, true, false, Option, none, some, List, [], ◌∷◌}
use ig.Base.Text.{Text, text}
use ig.Failure.{ErrorKind, invalid, not_found, conflict, denied, unavailable, internal}
use ig.Console.{Json, Elements, Fields}
use ig.Peer.Outgoing.{PeerInfo, BindingInfo}
use ig.Protocol.{ListInfo, ExposedInfo, GrantInfo, RemapInfo}
use ig.Client.Table.{ListView}

kind_name : ErrorKind → Text
kind_name invalid = text "invalid"
kind_name not_found = text "not_found"
kind_name conflict = text "conflict"
kind_name denied = text "denied"
kind_name unavailable = text "unavailable"
kind_name internal = text "internal"

elements : {A : Type 0} → (A → Json) → List A → Elements
elements f [] = Elements.stop
elements f (x ∷ xs) = Elements.item (f x) (elements f xs)

optional : Option Text → Json
optional none = Json.null
optional (some s) = Json.string s

peer_json : PeerInfo → Json
unfolding elements optional
peer_json p = Json.object (
    Fields.field (text "key") (Json.string p.key) (
      Fields.field (text "label") (optional p.label) (
        Fields.field (text "online") (Json.boolean p.online) (
          Fields.field (text "they_expose") (Json.array (elements Json.number p.they_expose))
            Fields.close))))

exposed_json : ExposedInfo → Json
exposed_json e = Json.object (
    Fields.field (text "port") (Json.number e.port)
      (Fields.field (text "backend") (Json.string e.backend) Fields.close))

grant_json : GrantInfo → Json
grant_json g = Json.object (
    Fields.field (text "port") (Json.number g.port)
      (Fields.field (text "to") (Json.string g.to) Fields.close))

binding_json : BindingInfo → Json
binding_json b = Json.object (
    Fields.field (text "port") (Json.number b.port) (
      Fields.field (text "local") (Json.number b.local)
        (Fields.field (text "peer") (Json.string b.peer) Fields.close)))

remap_json : RemapInfo → Json
remap_json r = Json.object (
    Fields.field (text "port") (Json.number r.port)
      (Fields.field (text "local") (Json.number r.local) Fields.close))

whole_json : ListInfo → Json
unfolding peer_json exposed_json grant_json binding_json remap_json
whole_json info = Json.object (
    Fields.field (text "id") (Json.string info.me) (
      Fields.field (text "peers") (Json.array (elements peer_json info.peers)) (
        Fields.field (text "exposed") (Json.array (elements exposed_json info.i_expose)) (
          Fields.field (text "grants") (Json.array (elements grant_json info.grants)) (
            Fields.field (text "bindings") (Json.array (elements binding_json info.bindings)) (
              Fields.field (text "remaps") (Json.array (elements remap_json info.remaps))
                Fields.close))))))

unfoldable pub json_view : ListInfo → ListView → Json
unfolding whole_json
json_view info ListView.peers =
    Json.object
      (Fields.field (text "peers") (Json.array (elements peer_json info.peers)) Fields.close)
json_view info ListView.ports = Json.object (
    Fields.field (text "exposed") (Json.array (elements exposed_json info.i_expose))
      (Fields.field (text "grants") (Json.array (elements grant_json info.grants)) Fields.close))
json_view info ListView.all = whole_json info
json_view info ListView.none = whole_json info

unfoldable pub error_json : ErrorKind → Text → Json
unfolding kind_name
error_json kind message = Json.object (
    Fields.field (text "ok") (Json.boolean false) (
      Fields.field (text "error")
        (Json.object (
          Fields.field (text "kind") (Json.string (kind_name kind))
            (Fields.field (text "message") (Json.string message) Fields.close)))
        Fields.close))

unfoldable pub done_json : Bool → Text → Json
done_json dry_run detail = Json.object (
    Fields.field (text "ok") (Json.boolean true) (
      Fields.field (text "dry_run") (Json.boolean dry_run)
        (Fields.field (text "detail") (Json.string detail) Fields.close)))

-- The JSON of one bare value.
pub value_json : Text → Text → Json
value_json key value = Json.object (Fields.field key (Json.string value) Fields.close)
