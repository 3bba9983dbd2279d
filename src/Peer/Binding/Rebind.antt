-- ===== src/Peer/Binding/Rebind.antt =====
-- peer.rs, `set_bind`: predicates of the manager that a remap keeps.
use ig.Base.{ℕ, refl, Option, List, [], ◌∷◌, Bool-cases, inl, inr}
use ig.Base.Map.{get}
use ig.Peer.{Peer, PeerManager, World, with_peer}
use ig.Peer.Binding.{
  release_all, recreate_all, set_local, set_bind, addresses, release_binding, create_binding,
  drop_binding, add_binding, exposes,
}
use ig.Peer.Binding.Invariant.{Calm, create_binding-cases}

module _ {ℓ} (P : PeerManager → Type ℓ)
    (touch : (addr : ℕ) (f : Peer → Peer) (m : PeerManager)
      → Calm f
      → P m
      → P (with_peer addr f m)) where
  release_all-keeps :
      (addrs : List ℕ) (port : ℕ) (m : PeerManager) → P m → P (release_all addrs port m)
  unfolding release_all release_binding
  release_all-keeps [] port m h = h
  release_all-keeps (addr ∷ addrs) port m h =
      release_all-keeps addrs port (release_binding addr port m)
        (touch addr (drop_binding port) m (λ p. (refl, refl)) h)

  create-keeps :
      (w : World) (addr port : ℕ) (m : PeerManager) → P m → P (create_binding w addr port m)
  create-keeps w addr port m h = elim (create_binding-cases w addr port m) [
    | inl e ↦ rw e h
    | inr (local, e) ↦ rw e (touch addr (add_binding port local) m (λ p. (refl, refl)) h)
  ]

  recreate_all-keeps :
      (w : World) (addrs : List ℕ) (port : ℕ) (m : PeerManager)
      → P m
      → P (recreate_all w addrs port m)
  unfolding recreate_all
  recreate_all-keeps w [] port m h = h
  recreate_all-keeps w (addr ∷ addrs) port m h =
      elim (Bool-cases (exposes port (get addr m.objects))) [
        | inl e ↦ rw e (
            recreate_all-keeps w addrs port (create_binding w addr port m)
              (create-keeps w addr port m h))
        | inr e ↦ rw e (recreate_all-keeps w addrs port m h)
      ]

  pub set_bind-keeps :
      (w : World) (port : ℕ) (local : Option ℕ) (m : PeerManager)
      → P (set_local port local m)
      → P (set_bind w port local m)
  unfolding set_bind
  set_bind-keeps w port local m h =
      recreate_all-keeps w (addresses m.peers) port _
        (release_all-keeps (addresses m.peers) port _ h)
