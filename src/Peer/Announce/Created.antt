-- ===== src/Peer/Announce/Created.antt =====
-- peer.rs, `update_peer_ports`: a listener for one announced port, where nobody is in the way.
use mathlib.Core.Bool.{false≢true}
use ig.Base.{
  ℕ, ◌≡◌, refl, true, false, Option, none, some, List, arith, ◌==◌, ◌⊎◌, Option-cases, inl, inr,
  sym, ap, ◌∙◌,
}
use ig.Base.Map.{get, contains_key, get-insert}
use ig.Peer.{Peer, PeerManager, World, IsValid}
use ig.Peer.Binding.{create_binding, local_for, held, add_binding}
use ig.Peer.Binding.Heap.{get-on_object}
use ig.Peer.Binding.Invariant.{create_binding-IsValid}
use ig.Peer.Announce.Since.{no_value, Known, Since, Since-refl}
use ig.Peer.Announce.Kept.{with_peer-Since}
use ig.Peer.Announce.Gone.{Stale}

-- The port is bound, or the operating system refused the local port that it lands on.
abbrev pub Tried : World → ℕ → ℕ → Peer → Type 0
Tried w local port q =
    (contains_key port q.bindings ≡ true) ⊎ ((taken : List ℕ) × (w.bind_os taken local ≡ none))

-- After a port was claimed for the peer `p`: the other ports are as they were.
pub record Claimed (w : World) (m : PeerManager) (id addr : ℕ) (p : Peer) (port : ℕ)
    (n : PeerManager) : Type 0 where
  pub q : Peer
  pub there : Known n id addr q
  pub exposed : q.exposed ≡ p.exposed
  pub others : (k : ℕ) → (port == k) ≡ false → get k q.bindings ≡ get k p.bindings
  pub kept : contains_key port p.bindings ≡ true → get port q.bindings ≡ get port p.bindings
  pub since : Since id m n
  pub gone :
      (other a : ℕ)
      → get other m.peers ≡ some a
      → get other n.peers ≡ none
      → Stale w m id port other a
  pub tried : Tried w (local_for m port) port q

pub create_binding-peers :
    (w : World) (addr port : ℕ) (m : PeerManager) → (create_binding w addr port m).peers ≡ m.peers
create_binding-peers w addr port m = elim (Option-cases (w.bind_os (held m) (local_for m port))) [
  | inl h ↦ unfold create_binding in rw (h, create_binding) refl
  | inr (local, h) ↦ unfold create_binding in rw (h, create_binding) refl
]

pub create-Claimed :
    (w : World) (m : PeerManager) (id addr : ℕ) (p : Peer) (port : ℕ)
    → Known m id addr p
    → contains_key port p.bindings ≡ false
    → Claimed w m id addr p port (create_binding w addr port m)
create-Claimed w m id addr p port k free = go (w.bind_os (held m) (local_for m port)) refl
  where
    valid : IsValid (create_binding w addr port m)
    valid = create_binding-IsValid w addr port m k.valid

    none_gone :
        (other a : ℕ)
        → get other m.peers ≡ some a
        → get other (create_binding w addr port m).peers ≡ none
        → Stale w m id port other a
    none_gone other a there away =
        absurd (no_value (sym away ∙ ap (get other) (create_binding-peers w addr port m) ∙ there))

    go :
        (o : Option ℕ)
        → w.bind_os (held m) (local_for m port) ≡ o
        → Claimed w m id addr p port (create_binding w addr port m)
    go none h = record {
      q = p;
      there = record {
        valid = valid;
        known = unfold create_binding in rw (h, create_binding) k.known;
        at = unfold create_binding in rw (h, create_binding) k.at;
      };
      exposed = refl;
      others = λ j e. refl;
      kept = λ c. refl;
      since = unfold create_binding in rw (h, create_binding) (Since-refl id m);
      gone = none_gone;
      tried = inr (held m, h);
    }
    go (some local) h = record {
      q = add_binding port local p;
      there = record {
        valid = valid;
        known = unfold create_binding in rw (h, create_binding) k.known;
        at =
            unfold create_binding in
            rw (h, create_binding)
              (ground (arith, get-on_object addr (add_binding port local) addr m.objects, k.at));
      };
      exposed = refl;
      others = λ j e. ground (arith, get-insert port j local p.bindings);
      kept = λ c. absurd (false≢true (sym free ∙ c));
      since =
          unfold create_binding in
          rw (h, create_binding) (with_peer-Since (add_binding port local) m id addr p k);
      gone = none_gone;
      tried = inl (ground (arith, get-insert port port local p.bindings));
    }
