-- ===== src/Peer/Announce/Settled.antt =====
-- peer.rs, `update_peer_ports`: all the ports of an announcement, claimed one after the other.
use mathlib.Core.Bool.{false≢true}
use ig.Base.{
  ℕ, ◌≡◌, refl, Bool, true, false, none, List, [], ◌∷◌, arith, ◌==◌, contains, Bool-cases, inl, inr,
  ap, sym, ◌∙◌, is_some,
}
use ig.Base.Map.{get, contains_key}
use ig.Peer.{Peer, PeerManager, World, IsValid}
use ig.Peer.Binding.{local_for}
use ig.Peer.Announce.{claim_port, claim_ports, go_on}
use ig.Peer.Announce.Created.{Tried, Claimed}
use ig.Peer.Announce.Claims.{ClaimOutcome, claim_port-ClaimOutcome}
use ig.Peer.Announce.Gone.{AllYielded, AllYielded-join}
use ig.Peer.Announce.Since.{
  no_value, Known, LiveHolder, LiveHolder-Since, Since, Since-refl, Since-trans,
}

-- What a peer was before and is after some ports were claimed for it.
pub record Settled (w : World) (m : PeerManager) (id addr : ℕ) (p : Peer) (ports : List ℕ)
    (n : PeerManager) : Type 0 where
  pub q : Peer
  pub there : Known n id addr q
  pub exposed : q.exposed ≡ p.exposed
  pub others : (k : ℕ) → contains ports k ≡ false → get k q.bindings ≡ get k p.bindings
  pub kept : (k : ℕ) → contains_key k p.bindings ≡ true → get k q.bindings ≡ get k p.bindings
  pub since : Since id m n
  pub tried : (k : ℕ) → contains ports k ≡ true → Tried w (local_for m k) k q
  pub yielded : AllYielded w m n id ports

-- The announcer was evicted, since a live peer listened where one of the ports lands.
abbrev pub Booted : World → PeerManager → ℕ → List ℕ → PeerManager → Type 0
Booted w m id ports n =
    IsValid n
    × (get id n.peers ≡ none)
    × ((port : ℕ) × (contains ports port ≡ true) × LiveHolder w m id port)

abbrev pub ClaimsOutcome : World → PeerManager → ℕ → ℕ → Peer → List ℕ → PeerManager × Bool → Type 0
ClaimsOutcome w m id addr p ports (n, true) = Settled w m id addr p ports n
ClaimsOutcome w m id addr p ports (n, false) = Booted w m id ports n

pub Tried-kept :
    (w : World) (local k : ℕ) (q r : Peer)
    → (contains_key k q.bindings ≡ true → get k r.bindings ≡ get k q.bindings)
    → Tried w local k q
    → Tried w local k r
Tried-kept w local k q r keep (inl bound) = inl (ap is_some (keep bound) ∙ bound)
Tried-kept w local k q r keep (inr refused) = inr refused

pub kept-all :
    (w : World) (m : PeerManager) (id addr : ℕ) (p : Peer) (port : ℕ) (n : PeerManager)
    (c : Claimed w m id addr p port n) (k : ℕ)
    → contains_key k p.bindings ≡ true
    → get k c.q.bindings ≡ get k p.bindings
kept-all w m id addr p port n c k bound = elim (Bool-cases (port == k)) [
  | inl e ↦ ground (arith, c.kept)
  | inr e ↦ c.others k e
]

pub join :
    (w : World) (m : PeerManager) (id addr : ℕ) (p : Peer) (port : ℕ) (ports : List ℕ)
    (n o : PeerManager) (c : Claimed w m id addr p port n)
    → Settled w n id addr c.q ports o
    → Settled w m id addr p (port ∷ ports) o
join w m id addr p port ports n o c s = record {
  q = s.q;
  there = s.there;
  exposed = s.exposed ∙ c.exposed;
  others = λ k e. s.others k (ground arith) ∙ c.others k (ground arith);
  kept = λ k bound.
      let first = kept-all w m id addr p port n c k bound in
      s.kept k (ap is_some first ∙ bound) ∙ first;
  since = Since-trans id m n o c.since s.since;
  tried = λ k e. elim (Bool-cases (contains ports k)) [
    | inl later ↦ rw (← same k) (s.tried k later)
    | inr no_later ↦
        let here : port ≡ k = ground arith in
        Tried-kept w (local_for m k) k c.q s.q (s.kept k) (rw (← here) c.tried)
  ];
  yielded = AllYielded-join w m n o id port ports c.since s.since c.gone s.yielded;
}
  where
    same : (k : ℕ) → local_for n k ≡ local_for m k
    same k = unfold local_for in rw c.since.binds

pub boot_later :
    (w : World) (m n : PeerManager) (id port : ℕ) (ports : List ℕ) (o : PeerManager)
    → Since id m n
    → Booted w n id ports o
    → Booted w m id (port ∷ ports) o
boot_later w m n id port ports o s (valid, gone, (k, among, live)) =
    (valid, gone, (k, ground arith, LiveHolder-Since w id k m n s live))

pub claim_ports-ClaimsOutcome :
    (w : World) (m : PeerManager) (id addr : ℕ) (p : Peer) (ports : List ℕ)
    → Known m id addr p
    → ClaimsOutcome w m id addr p ports (claim_ports w addr ports m)
unfolding claim_ports
claim_ports-ClaimsOutcome w m id addr p [] k = record {
  q = p;
  there = k;
  exposed = refl;
  others = λ j e. refl;
  kept = λ j e. refl;
  since = Since-refl id m;
  tried = λ j e. absurd (false≢true e);
  yielded = λ other a ne there gone. absurd (no_value (sym gone ∙ there));
}
claim_ports-ClaimsOutcome w m id addr p (port ∷ ports) k =
    go (claim_port w addr port m) (claim_port-ClaimOutcome w m id addr p port k)
      (λ n q k'. claim_ports-ClaimsOutcome w n id addr q ports k')
  where
    go :
        (r : PeerManager × Bool)
        → ClaimOutcome w m id addr p port r
        → ((n : PeerManager) (q : Peer)
            → Known n id addr q
            → ClaimsOutcome w n id addr q ports (claim_ports w addr ports n))
        → ClaimsOutcome w m id addr p (port ∷ ports) (go_on r (claim_ports w addr ports))
    go (n, false) (valid, gone, live) rest =
        unfold go_on in (valid, gone, (port, ground arith, live))
    go (n, true) c rest = after (claim_ports w addr ports n) (rest n c.q c.there)
      where
        after :
            (r : PeerManager × Bool)
            → ClaimsOutcome w n id addr c.q ports r
            → ClaimsOutcome w m id addr p (port ∷ ports) r
        after (o, true) s = join w m id addr p port ports n o c s
        after (o, false) b = boot_later w m n id port ports o c.since b
