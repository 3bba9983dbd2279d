-- ===== src/Peer/Roster/Pinning.antt =====
-- peer.rs, `add_pinned`: the table of the known peers afterwards.
use ig.Base.{ℕ, ◌≡◌, refl, Bool, false, ◌||◌, Option, none, some, arith, ◌==◌, Bool-cases, inl, inr}
use ig.Base.Map.{contains_key, get-insert}
use ig.Base.Text.{Text}
use ig.Peer.{PeerManager, World, new_peer, admit}
use ig.Peer.Roster.{add_pinned, pin_key}

-- Did a text parse to this key?
abbrev pub is_key : Option ℕ → ℕ → Bool
is_key none id = false
is_key (some k) id = k == id

-- The grants, the remaps and the services are the same.
abbrev pub ToldAlike : PeerManager → PeerManager → Type 0
ToldAlike n m = (n.grants ≡ m.grants) × (n.binds ≡ m.binds) × (n.services ≡ m.services)

abbrev Pinned : Option ℕ → PeerManager → PeerManager → Type 0
Pinned o m n =
    ((id : ℕ) → contains_key id n.peers ≡ (is_key o id || contains_key id m.peers)) × ToldAlike n m

pin_key-Pinned :
    (w : World) (key label : Text) (o : Option ℕ) (m : PeerManager)
    → Pinned o m (pin_key w key label o m).0
unfolding pin_key
pin_key-Pinned w key label none m = (λ id. refl, (refl, refl, refl))
pin_key-Pinned w key label (some k) m = elim (Bool-cases (contains_key k m.peers)) [
  | inl e ↦ rw e (λ id. ground (arith, e), (refl, refl, refl))
  | inr e ↦ rw e (
    λ id. unfold admit new_peer in ground (arith, get-insert k id m.next m.peers),
    unfold admit in (refl, refl, refl),
  )
]

-- Afterwards exactly the known keys and this one are known.
pub add_pinned-knows :
    (w : World) (key label : Text) (m : PeerManager)
    → let n = (add_pinned w key label m).0 in
      ((id : ℕ) → contains_key id n.peers ≡ (is_key (w.parse key) id || contains_key id m.peers))
      × ToldAlike n m
unfolding add_pinned
add_pinned-knows w key label m = pin_key-Pinned w key label (w.parse key) m
