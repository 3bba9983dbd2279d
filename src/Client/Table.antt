-- ===== src/Client/Table.antt =====
-- client.rs, `text_view`: the tables that a listing prints.
use ig.Base.{
  ℕ, zero, suc, ◌-◌, Bool, false, not, ◌||◌, List, [], ◌∷◌, ◌++◌, ◌==◌, if◌then◌else◌, is_empty,
  keep, length, map, take, unwrap_or,
}
use ig.Base.Text.{Text, text, decimal}
use ig.Peer.Outgoing.{PeerInfo, BindingInfo}
use ig.Protocol.{ListInfo, ExposedInfo, GrantInfo, RemapInfo}

pub data ListView : Type 0 where
  all peers ports none : ListView

pub short : Text → Text
short key = take 12 key

spaces : ℕ → Text
spaces zero = []
spaces (suc n) = 32 ∷ spaces n

-- `{:<n}`.
unfoldable pub pad : ℕ → Text → Text
unfolding spaces
pad width s = s ++ spaces (width - length s)

-- `v.join(",")`.
unfoldable pub join : List Text → Text
join [] = []
join (s ∷ []) = s
join (s ∷ t ∷ ts) = s ++ 44 ∷ join (t ∷ ts)

abbrev none_line : Text
none_line = text "  (none)\n"

rows : {A : Type 0} → (A → Text) → List A → Text
rows row [] = []
rows row (x ∷ xs) = row x ++ rows row xs

-- The rows of a table, or a line that says that there are none.
table : {A : Type 0} → Text → (A → Text) → List A → Text
unfolding rows
table title row xs = title ++ ((if is_empty xs then none_line else []) ++ rows row xs)

peer_row : PeerInfo → Text
peer_row p =
    text "  "
    ++ (short p.key
        ++ (text "  "
            ++ (pad 10 (unwrap_or p.label (text "-"))
                ++ (text "  "
                    ++ (pad 7 (if p.online then text "online" else text "offline")
                        ++ (text "  exposes "
                            ++ ((if is_empty p.they_expose
                                  then text "-"
                                  else join (map decimal p.they_expose))
                                ++ text "\n")))))))

-- Whom a port is granted to, in the order of the grants.
unfoldable pub granted_to : ℕ → List GrantInfo → List Text
granted_to port [] = []
granted_to port (g ∷ grants) =
    if g.port == port then short g.to ∷ granted_to port grants else granted_to port grants

exposed_row : List GrantInfo → ExposedInfo → Text
exposed_row grants e =
    let to = granted_to e.port grants in
    text "  "
    ++ (pad 6 (decimal e.port)
        ++ (text "  "
            ++ (pad 30 e.backend
                ++ (text "  to "
                    ++ ((if is_empty to then text "(nobody)" else join to) ++ text "\n")))))

landed : BindingInfo → Text
landed b =
    text "127.0.0.1:"
    ++ (decimal b.local
        ++ (if b.local == b.port
            then []
            else text " (remapped from " ++ (decimal b.port ++ text ")")))

binding_row : BindingInfo → Text
unfolding landed
binding_row b = text "  " ++ (pad 38 (landed b) ++ (text "  from " ++ (short b.peer ++ text "\n")))

bound_here : ℕ → List BindingInfo → Bool
bound_here port [] = false
bound_here port (b ∷ bindings) = b.port == port || bound_here port bindings

-- The remaps of ports that no peer offers now.
unfoldable pub idle : ListInfo → List RemapInfo
unfolding bound_here
idle info = keep (λ r. not (bound_here r.port info.bindings)) info.remaps

remap_row : RemapInfo → Text
remap_row r =
    text "  "
    ++ (pad 6 (decimal r.port) ++ (text "  -> 127.0.0.1:" ++ (decimal r.local ++ text "\n")))

idle_table : List RemapInfo → Text
unfolding rows remap_row
idle_table [] = []
idle_table (r ∷ rs) =
    text "\nremaps (waiting for a peer to offer the port)\n" ++ rows remap_row (r ∷ rs)

peers_table : ListInfo → Text
unfolding table peer_row
peers_table info = table (text "\npeers\n") peer_row info.peers

exposed_table : ListInfo → Text
unfolding table exposed_row
exposed_table info = table (text "\nexposed\n") (exposed_row info.grants) info.i_expose

bindings_table : ListInfo → Text
unfolding table binding_row
bindings_table info = table (text "\nbindings\n") binding_row info.bindings

id_line : ListInfo → Text
id_line info = text "id  " ++ (info.me ++ text "\n")

unfoldable pub text_view : ListInfo → ListView → Text
unfolding peers_table exposed_table bindings_table idle_table id_line
text_view info all =
    id_line info
    ++ (peers_table info ++ (exposed_table info ++ (bindings_table info ++ idle_table (idle info))))
text_view info peers = peers_table info
text_view info ports = exposed_table info
text_view info none = []
