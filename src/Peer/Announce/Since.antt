-- ===== src/Peer/Announce/Since.antt =====
-- peer.rs, `update_peer_ports`: the other peers while an announcement is taken in.

use ig.Base.{
  ℕ, ◌≡◌, refl, true, false, none, some, arith, ◌==◌, contains, ◌⊎◌, Option-cases, inl, inr, sym,
  ◌∙◌,
}
use ig.Base.Map.{get}
use ig.Peer.{Peer, PeerManager, World, IsValid}
use ig.Peer.Binding.{probe_peer, local_for}
use ig.Peer.Binding.Holder.{HoldsAs}
use ig.Peer.Binding.Liveness.{ClosedIn, probe_peer-ClosedIn}

-- The peer at this address is the known peer of this key.
pub record Known (m : PeerManager) (id addr : ℕ) (p : Peer) : Type 0 where
  pub valid : IsValid m
  pub known : get id m.peers ≡ some addr
  pub at : get addr m.objects ≡ some p

pub Known-endpoint_id :
    {m : PeerManager} (id addr : ℕ) (p : Peer) → Known m id addr p → p.endpoint_id ≡ id
Known-endpoint_id {m} id addr p k =
    let (q, there, own, _) = k.valid.points id addr k.known in ground (arith, k.at)

-- A live peer other than this one listens where the port lands.
abbrev pub LiveHolder : World → PeerManager → ℕ → ℕ → Type 0
LiveHolder w m id port =
    (other : ℕ) × (addr : ℕ) × HoldsAs m.objects m.peers (local_for m port) id other addr
    × (probe_peer w m addr ≡ true)

-- This connection is that of another peer, which was known and is gone.
pub record CutOff (id : ℕ) (m n : PeerManager) (c : ℕ) : Type 0 where
  pub key : ℕ
  pub address : ℕ
  pub peer : Peer
  pub differs : (key == id) ≡ false
  pub known : get key m.peers ≡ some address
  pub at : get address m.objects ≡ some peer
  pub connected : peer.connection ≡ some c
  pub gone : get key n.peers ≡ none

-- Between two moments, no peer other than this one came in, none changed, the connections that were
-- closed are those of other peers that are gone, and the remaps are the same.
pub record Since (id : ℕ) (m n : PeerManager) : Type 0 where
  pub table : (other a : ℕ) → get other n.peers ≡ some a → get other m.peers ≡ some a
  pub same :
      (other a : ℕ)
      → (other == id) ≡ false
      → get other n.peers ≡ some a
      → get a n.objects ≡ get a m.objects
  pub closed : ClosedIn m n
  pub cut : (c : ℕ) → contains n.closed c ≡ true → (contains m.closed c ≡ true) ⊎ CutOff id m n c
  pub binds : n.binds ≡ m.binds

pub Since-refl : (id : ℕ) (m : PeerManager) → Since id m m
Since-refl id m = record {
  table = λ other a h. h;
  same = λ other a ne h. refl;
  closed = λ c h. h;
  cut = λ c h. inl h;
  binds = refl;
}

pub no_value : {a : ℕ} → none ≡ some a → ⊥
no_value h = cc

-- Who is gone stays gone.
pub stay_gone :
    (id : ℕ) (m n : PeerManager) (k : ℕ)
    → Since id m n
    → get k m.peers ≡ none
    → get k n.peers ≡ none
stay_gone id m n k s h = elim (Option-cases (get k n.peers)) [
  | inl e ↦ e
  | inr (a, e) ↦ absurd (no_value (sym h ∙ s.table k a e))
]

-- Seen from an earlier moment, or until a later one.
pub CutOff-Since :
    (id : ℕ) (l m n : PeerManager) (c : ℕ)
    → Since id l m
    → (x : CutOff id m n c) → (y : CutOff id l n c) × (y.key ≡ x.key)
CutOff-Since id l m n c s x = (
  record {
    key = x.key;
    address = x.address;
    peer = x.peer;
    differs = x.differs;
    known = s.table x.key x.address x.known;
    at = sym (s.same x.key x.address x.differs x.known) ∙ x.at;
    connected = x.connected;
    gone = x.gone;
  },
  refl,
)

pub CutOff-until :
    (id : ℕ) (l m n : PeerManager) (c : ℕ)
    → Since id m n
    → (x : CutOff id l m c) → (y : CutOff id l n c) × (y.key ≡ x.key)
CutOff-until id l m n c t x = (
  record {
    key = x.key;
    address = x.address;
    peer = x.peer;
    differs = x.differs;
    known = x.known;
    at = x.at;
    connected = x.connected;
    gone = stay_gone id m n x.key t x.gone;
  },
  refl,
)

pub Since-trans : (id : ℕ) (l m n : PeerManager) → Since id l m → Since id m n → Since id l n
Since-trans id l m n s t = record {
  table = λ other a h. s.table other a (t.table other a h);
  same = λ other a ne h. t.same other a ne h ∙ s.same other a ne (t.table other a h);
  closed = λ c h. t.closed c (s.closed c h);
  cut = λ c h. elim (t.cut c h) [
    | inl e ↦ elim (s.cut c e) [ inl f ↦ inl f | inr x ↦ inr ((CutOff-until id l m n c t x).0) ]
    | inr x ↦ inr ((CutOff-Since id l m n c s x).0)
  ];
  binds = t.binds ∙ s.binds;
}

-- A live holder was one before.
pub LiveHolder-Since :
    (w : World) (id port : ℕ) (m n : PeerManager)
    → Since id m n
    → LiveHolder w n id port
    → LiveHolder w m id port
LiveHolder-Since w id port m n s (other, a, (there, ne, holding), live) =
    let same = s.same other a ne there in
    let port_same : local_for n port ≡ local_for m port = unfold local_for in rw s.binds in
    (
      other,
      a,
      (s.table other a there, ne, rw (← port_same, ← same) holding),
      probe_peer-ClosedIn w m n a same s.closed live,
    )
