-- ===== src/Peer/Announce/Claims.antt =====
-- peer.rs, `update_peer_ports`: one announced port, and who gets the local port that it lands on.
use mathlib.Core.Option.{some-injective}
use ig.Base.{
  ℕ, ◌≡◌, refl, Bool, true, false, Option, none, some, List, arith, ◌==◌, ◌⊎◌, Bool-cases,
  Option-cases, inl, inr, sym, ap, subst, ◌∙◌,
}
use ig.Base.Map.{get, contains_key, get-insert, get-remove}
use ig.Peer.{Peer, PeerManager, World, IsValid}
use ig.Peer.Binding.{evict, create_binding, find_holder, probe_peer, local_for}
use ig.Peer.Binding.Holder.{find_holder-Found, Found}
use ig.Peer.Binding.Evicted.{evict-known, get-dropped_objects}
use ig.Peer.Binding.Invariant.{evict-IsValid, evict-unknown}
use ig.Peer.Announce.Since.{
  no_value, Known, Known-endpoint_id, LiveHolder, Since, Since-refl, Since-trans,
}
use ig.Peer.Announce.Kept.{evict-Since}
use ig.Peer.Binding.Holder.{HoldsAs}
use ig.Peer.Announce.Gone.{Stale}
use ig.Peer.Announce.{claim_port, settle, object_id, object_bound}
use ig.Peer.Announce.Created.{Claimed, create-Claimed, create_binding-peers}

-- Evicting another peer leaves this one as it was.
pub evict-other-Known :
    (w : World) (m : PeerManager) (id addr : ℕ) (p : Peer) (other : ℕ)
    → Known m id addr p
    → (other == id) ≡ false
    → Known (evict w other m) id addr p × ((evict w other m).binds ≡ m.binds)
evict-other-Known w m id addr p other k ne = elim (Option-cases (get other m.peers)) [
  | inl h ↦
      let (o, t, x, b, _) = evict-unknown w other m h in
      (record { valid = valid; known = ap (get id) t ∙ k.known; at = ap (get addr) o ∙ k.at }, b)
  | inr (a, h) ↦
      let (q, there, own, alive) = k.valid.points other a h in
      let parts = evict-known w other a q m h there in
      (
        record {
          valid = valid;
          known = ap (get id) parts.1 ∙ ground (arith, get-remove other id m.peers, k.known);
          at =
              ap (get addr) parts.0
              ∙ ground (
                arith,
                get-dropped_objects a q addr m.objects there,
                Known-endpoint_id id addr p k,
                k.at,
                there,
                own,
              );
        },
        parts.4,
      )
]
  where
    valid : IsValid (evict w other m)
    valid = evict-IsValid w other m k.valid

abbrev pub ClaimOutcome : World → PeerManager → ℕ → ℕ → Peer → ℕ → PeerManager × Bool → Type 0
ClaimOutcome w m id addr p port (n, true) = Claimed w m id addr p port n
ClaimOutcome w m id addr p port (n, false) =
    IsValid n × (get id n.peers ≡ none) × LiveHolder w m id port

evicted-gone :
    (w : World) (m : PeerManager) (id addr : ℕ) (p : Peer)
    → Known m id addr p
    → get id (evict w id m).peers ≡ none
evicted-gone w m id addr p k =
    ap (get id) (evict-known w id addr p m k.known k.at).1
    ∙ ground (arith, get-remove id id m.peers)

-- The claim goes through from a state where the peer is still the same.
via :
    (w : World) (m n : PeerManager) (id addr : ℕ) (p : Peer) (port : ℕ)
    → Since id m n
    → Known n id addr p
    → contains_key port p.bindings ≡ false
    → ((other a : ℕ)
        → get other m.peers ≡ some a
        → get other n.peers ≡ none
        → Stale w m id port other a)
    → Claimed w m id addr p port (create_binding w addr port n)
via w m n id addr p port s k free gone =
    let c = create-Claimed w n id addr p port k free in
    record {
      q = c.q;
      there = c.there;
      exposed = c.exposed;
      others = c.others;
      kept = c.kept;
      since = Since-trans id m n _ s c.since;
      gone = λ other a there away.
          gone other a there (ap (get other) (sym (create_binding-peers w addr port n)) ∙ away);
      tried = rw (sym same) c.tried;
    }
  where
    same : local_for n port ≡ local_for m port
    same = unfold local_for in rw s.binds

object_id-known :
    (m : PeerManager) (id addr : ℕ) (p : Peer)
    → get addr m.objects ≡ some p
    → p.endpoint_id ≡ id
    → object_id (get addr m.objects) ≡ id
object_id-known m id addr p at own = rw at own

-- The one that was evicted is the one that is gone.
gone_is :
    (w : World) (m : PeerManager) (other addr : ℕ) (q : Peer)
    → get other m.peers ≡ some addr
    → get addr m.objects ≡ some q
    → (k a : ℕ) → get k m.peers ≡ some a
    → get k (evict w other m).peers ≡ none
    → other ≡ k
gone_is w m other addr q known at k a there away =
    let parts = evict-known w other addr q m known at in
    removed_is (ap (get k) (sym parts.1) ∙ away)
  where
    removed_is : get k (ig.Base.Map.remove other m.peers) ≡ none → other ≡ k
    removed_is e = ground (arith, get-remove other k m.peers, there, e)

settle-holder :
    (w : World) (m : PeerManager) (id addr : ℕ) (p : Peer) (port holder : ℕ)
    → Known m id addr p
    → contains_key port p.bindings ≡ false
    → Found m (local_for m port) id (some holder)
    → ClaimOutcome w m id addr p port (settle w addr port (some holder) m)
unfolding settle
settle-holder w m id addr p port holder k free (nonzero, (other, holds)) =
    elim (Bool-cases (probe_peer w m holder)) [
      | inl live ↦
          rw (live, object_id-known m id addr p k.at (Known-endpoint_id id addr p k))
            (
              evict-IsValid w id m k.valid,
              evicted-gone w m id addr p k,
              (other, holder, holds, live),
            )
      | inr stale ↦
          let (q, there_at, own, _) = k.valid.points other holder holds.0 in
          rw (stale, object_id-known m other holder q there_at own)
            (let (k', _) = evict-other-Known w m id addr p other k holds.1 in
              via w m (evict w other m) id addr p port (evict-Since w m id other k.valid holds.1) k'
                free
                λ k2 a there away.
                  let same : other ≡ k2 =
                    gone_is w m other holder q holds.0 there_at k2 a there away in
                  let at_holder : holder ≡ a =
                    some-injective _ _ (sym holds.0 ∙ ap (λ x. get x m.peers) same ∙ there) in
                  (
                    subst (λ y. HoldsAs m.objects m.peers (local_for m port) id k2 y) at_holder
                        (subst (λ x. HoldsAs m.objects m.peers (local_for m port) id x holder) same
                          holds),
                    ap (probe_peer w m) (sym at_holder) ∙ stale,
                  ))
    ]

settle-ClaimOutcome :
    (w : World) (m : PeerManager) (id addr : ℕ) (p : Peer) (port : ℕ) (o : Option ℕ)
    → Known m id addr p
    → contains_key port p.bindings ≡ false
    → Found m (local_for m port) id o
    → ClaimOutcome w m id addr p port (settle w addr port o m)
settle-ClaimOutcome w m id addr p port none k free f =
    unfold settle in create-Claimed w m id addr p port k free
settle-ClaimOutcome w m id addr p port (some holder) k free f =
    settle-holder w m id addr p port holder k free f

-- A port is claimed, or the announcer is evicted because a live peer listens where it lands.
pub claim_port-ClaimOutcome :
    (w : World) (m : PeerManager) (id addr : ℕ) (p : Peer) (port : ℕ)
    → Known m id addr p
    → ClaimOutcome w m id addr p port (claim_port w addr port m)
unfolding claim_port
claim_port-ClaimOutcome w m id addr p port k =
    elim (Bool-cases (object_bound port (get addr m.objects))) [
      | inl bound ↦ rw bound (record {
        q = p;
        there = k;
        exposed = refl;
        others = λ j e. refl;
        kept = λ c. refl;
        since = Since-refl id m;
        gone = λ other a there away. absurd (no_value (sym away ∙ there));
        tried = inl (rw k.at at bound);
      })
      | inr free ↦
          rw (free, object_id-known m id addr p k.at (Known-endpoint_id id addr p k))
            (settle-ClaimOutcome w m id addr p port (find_holder m (local_for m port) id) k
              (rw k.at at free) (find_holder-Found m (local_for m port) id k.valid.one_entry))
    ]
