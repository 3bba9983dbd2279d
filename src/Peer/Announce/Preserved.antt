-- ===== src/Peer/Announce/Preserved.antt =====
-- peer.rs, `update_peer_ports`: predicates of the manager that an announcement keeps.
use ig.Base.{
  ℕ, refl, Bool, true, false, Option, none, some, List, [], ◌∷◌, contains, Bool-cases, inl, inr,
}
use ig.Base.Map.{get}
use ig.Peer.{Peer, PeerManager, World, with_peer}
use ig.Peer.Binding.{evict, release_binding, create_binding, drop_binding, add_binding, probe_peer}
use ig.Peer.Binding.Invariant.{Calm, create_binding-cases}
use ig.Peer.Announce.{
  claim_port, claim_ports, go_on, settle, release_gone, record_ports, update_peer_ports,
  object_exposed, object_bound, object_id, set_exposed, handle_uni_stream, Incoming, message,
  garbage,
}
use ig.Peer.{exposed_ports, connect, enroll, error}

module _ {ℓ} (w : World) (P : PeerManager → Type ℓ)
    (touch : (addr : ℕ) (f : Peer → Peer) (m : PeerManager) → Calm f → P m → P (with_peer addr f m))
    (evicts : (id : ℕ) (m : PeerManager) → P m → P (evict w id m)) where
  create-keeps : (addr port : ℕ) (m : PeerManager) → P m → P (create_binding w addr port m)
  create-keeps addr port m h = elim (create_binding-cases w addr port m) [
    | inl e ↦ rw e h
    | inr (local, e) ↦ rw e (touch addr (add_binding port local) m (λ p. (refl, refl)) h)
  ]

  settle-keeps :
      (addr port : ℕ) (o : Option ℕ) (m : PeerManager) → P m → P (settle w addr port o m).0
  unfolding settle
  settle-keeps addr port none m h = create-keeps addr port m h
  settle-keeps addr port (some holder) m h = elim (Bool-cases (probe_peer w m holder)) [
    | inl e ↦ rw e (evicts (object_id (get addr m.objects)) m h)
    | inr e ↦ rw e (
        create-keeps addr port (evict w (object_id (get holder m.objects)) m)
          (evicts (object_id (get holder m.objects)) m h))
  ]

  claim_port-keeps : (addr port : ℕ) (m : PeerManager) → P m → P (claim_port w addr port m).0
  unfolding claim_port
  claim_port-keeps addr port m h = elim (Bool-cases (object_bound port (get addr m.objects))) [
    | inl e ↦ rw e h
    | inr e ↦ rw e (settle-keeps addr port _ m h)
  ]

  go_on-keeps :
      (r : PeerManager × Bool) (rest : PeerManager → PeerManager × Bool)
      → P r.0
      → ((n : PeerManager) → P n → P (rest n).0)
      → P (go_on r rest).0
  unfolding go_on
  go_on-keeps (m, true) rest h k = k m h
  go_on-keeps (m, false) rest h k = h

  claim_ports-keeps :
      (addr : ℕ) (ports : List ℕ) (m : PeerManager) → P m → P (claim_ports w addr ports m).0
  unfolding claim_ports
  claim_ports-keeps addr [] m h = h
  claim_ports-keeps addr (port ∷ ports) m h =
      go_on-keeps (claim_port w addr port m) (claim_ports w addr ports)
        (claim_port-keeps addr port m h) (claim_ports-keeps addr ports)

  release_gone-keeps :
      (addr : ℕ) (old ports : List ℕ) (m : PeerManager) → P m → P (release_gone addr old ports m)
  unfolding release_gone release_binding
  release_gone-keeps addr [] ports m h = h
  release_gone-keeps addr (port ∷ old) ports m h = elim (Bool-cases (contains ports port)) [
    | inl e ↦ rw e (release_gone-keeps addr old ports m h)
    | inr e ↦ rw e (
        release_gone-keeps addr old ports (release_binding addr port m)
          (touch addr (drop_binding port) m (λ p. (refl, refl)) h))
  ]

  record_ports-keeps :
      (addr : ℕ) (ports : List ℕ) (r : PeerManager × Bool) → P r.0 → P (record_ports addr ports r)
  unfolding record_ports
  record_ports-keeps addr ports (m, true) h = touch addr (set_exposed ports) m (λ p. (refl, refl)) h
  record_ports-keeps addr ports (m, false) h = h

  pub update_peer_ports-keeps :
      (addr : ℕ) (ports : List ℕ) (m : PeerManager) → P m → P (update_peer_ports w addr ports m)
  unfolding update_peer_ports
  update_peer_ports-keeps addr ports m h = record_ports-keeps addr ports _ (
      claim_ports-keeps addr ports _
        (release_gone-keeps addr (object_exposed (get addr m.objects)) ports m h))

  pub handle_uni_stream-keeps :
      (addr : ℕ) (event : Incoming) (m : PeerManager) → P m → P (handle_uni_stream w addr event m)
  unfolding handle_uni_stream
  handle_uni_stream-keeps addr (message (exposed_ports ports)) m h =
      update_peer_ports-keeps addr ports m h
  handle_uni_stream-keeps addr (message (connect port)) m h = h
  handle_uni_stream-keeps addr (message (enroll token)) m h = h
  handle_uni_stream-keeps addr (message (error e)) m h = h
  handle_uni_stream-keeps addr garbage m h = h
