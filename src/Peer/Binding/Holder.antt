-- ===== src/Peer/Binding/Holder.antt =====
-- peer.rs, `find_holder`: the peer that it finds.
use ig.Base.{
  ℕ, ◌≡◌, ◌≢◌, refl, true, false, not, ◌&&◌, Option, none, some, [], ◌∷◌, arith, ◌==◌, Distinct,
  Bool-cases, inl, inr,
}
use ig.Base.Map.{Map, get, keys, get-none}
use ig.Peer.{Peer, PeerManager}
use ig.Peer.Binding.{find_holder, find_entry, peer_holds}

-- The peer under this key is another one than `exclude`, and it listens on `local`.
abbrev pub HoldsAs : Map Peer → Map ℕ → ℕ → ℕ → ℕ → ℕ → Type 0
HoldsAs objects peers local exclude id addr =
    (get id peers ≡ some addr)
    × ((id == exclude) ≡ false)
    × (peer_holds local (get addr objects) ≡ true)

find_entry_sound :
    (objects : Map Peer) (local exclude : ℕ) (peers : Map ℕ) (addr : ℕ)
    → Distinct (keys peers)
    → find_entry objects local exclude peers ≡ some addr
    → (id : ℕ) × HoldsAs objects peers local exclude id addr
unfolding find_entry get keys
find_entry_sound objects local exclude [] addr d h = cc
find_entry_sound objects local exclude ((k, a) ∷ peers) addr d h =
    elim (Bool-cases (not (k == exclude) && peer_holds local (get a objects))) [
      | inl e ↦ (k, (ground arith, ground arith, ground arith))
      | inr e ↦
          let rest = find_entry_sound objects local exclude peers addr d.1 (ground arith) in
          (rest.0, (ground (arith, get-none rest.0 peers), rest.1.1, rest.1.2))
    ]

find_entry_complete :
    (objects : Map Peer) (local exclude : ℕ) (peers : Map ℕ) (id addr : ℕ)
    → find_entry objects local exclude peers ≡ none
    → HoldsAs objects peers local exclude id addr
    → ⊥
unfolding find_entry get
find_entry_complete objects local exclude [] id addr h c = cc
find_entry_complete objects local exclude ((k, a) ∷ peers) id addr h c =
    ground (arith, find_entry_complete objects local exclude peers id addr)

abbrev pub Found : PeerManager → ℕ → ℕ → Option ℕ → Type 0
Found m local exclude none =
    (local ≢ 0) → (id addr : ℕ) → ¬ HoldsAs m.objects m.peers local exclude id addr
Found m local exclude (some addr) =
    (local ≢ 0) × ((id : ℕ) × HoldsAs m.objects m.peers local exclude id addr)

-- A holder that is found is another known peer that listens on that local port; where none is
-- found, there is none, unless the operating system is to choose the port.
pub find_holder-Found :
    (m : PeerManager) (local exclude : ℕ)
    → Distinct (keys m.peers)
    → Found m local exclude (find_holder m local exclude)
unfolding find_holder
find_holder-Found m local exclude d = elim (Bool-cases (local == 0)) [
  | inl e ↦ rw e (λ ne. absurd (ne (ground arith)))
  | inr e ↦ rw e (go e (find_entry m.objects local exclude m.peers) refl)
]
  where
    go :
        (local == 0) ≡ false
        → (o : Option ℕ) → find_entry m.objects local exclude m.peers ≡ o
        → Found m local exclude o
    go e none h = λ ne id addr. find_entry_complete m.objects local exclude m.peers id addr h
    go e (some addr) h = (ground arith, find_entry_sound m.objects local exclude m.peers addr d h)
