-- ===== src/Peer/Roster/Sharing.antt =====
-- peer.rs: a sound manager, and the steps that the operations on the known peers are made of.
use ig.Base.{ℕ, ◌≡◌, refl, false, Option, none, some, List, arith, ◌==◌, Bool-cases, inl, inr}
use ig.Base.Map.{get, keys-insert-Distinct, get-insert}
use ig.Base.Text.{Text}
use ig.Grants
use ig.Grants.Invariant.{revoke_grantee-IsValid}
use ig.Service
use ig.Service.{IpAddr}
use ig.Enroll.Claims.{claim-IsValid}
use ig.Enroll.Claims
use ig.Peer.{Peer, PeerManager, World, IsValid, admit, with_peer}
use ig.Peer.Binding.{evict}
use ig.Peer.Binding.Evicted.{evict-shared}
use ig.Peer.Binding.Invariant.{with_peer-IsValid, evict-IsValid, Calm}
use ig.Peer.Announce.{update_peer_ports}
use ig.Peer.Announce.Preserved.{update_peer_ports-keeps}
use ig.Peer.Outgoing.Sent.{OnlySent, send_message-OnlySent}
use ig.Peer.Roster.{present}

pub record Sound (m : PeerManager) : Type 0 where
  pub table : IsValid m
  pub grants : Grants.IsValid m.grants
  pub services : Service.IsValid m.services
  pub tokens : Claims.IsValid m.tokens

pub admit-IsValid :
    (p : Peer) (m : PeerManager) → p.removed ≡ false → IsValid m → IsValid (admit p m)
unfolding admit
admit-IsValid p m live v = record {
  one_entry = keys-insert-Distinct p.endpoint_id m.next m.peers v.one_entry;
  points = λ k a h. elim (Bool-cases (p.endpoint_id == k)) [
    | inl e ↦ (
      p,
      ground (arith, get-insert p.endpoint_id k m.next m.peers, get-insert m.next a p m.objects, h),
      ground arith,
      live,
    )
    | inr e ↦
        let old : get k m.peers ≡ some a =
          ground (arith, get-insert p.endpoint_id k m.next m.peers, h) in
        let (q, at, own, alive) = v.points k a old in
        (q, ground (arith, get-insert m.next a p m.objects, at, v.fresh a), own, alive)
  ];
  fresh = λ a h. ground (arith, get-insert m.next a p m.objects, v.fresh a);
}

pub touch-Sound :
    (addr : ℕ) (f : Peer → Peer) (m : PeerManager) → Calm f → Sound m → Sound (with_peer addr f m)
touch-Sound addr f m calm s = record {
  table = with_peer-IsValid addr f m calm s.table;
  grants = s.grants;
  services = s.services;
  tokens = s.tokens;
}

pub evict-Sound : (w : World) (id : ℕ) (m : PeerManager) → Sound m → Sound (evict w id m)
evict-Sound w id m s =
    let (same, grants) = evict-shared w id m in
    record {
      table = evict-IsValid w id m s.table;
      grants = rw grants (revoke_grantee-IsValid m.grants id s.grants);
      services = rw (same.1) s.services;
      tokens = rw (same.0) s.tokens;
    }

pub update_peer_ports-Sound :
    (w : World) (addr : ℕ) (ports : List ℕ) (m : PeerManager)
    → Sound m
    → Sound (update_peer_ports w addr ports m)
update_peer_ports-Sound w = update_peer_ports-keeps w Sound touch-Sound (evict-Sound w)

pub admit-Sound : (p : Peer) (m : PeerManager) → p.removed ≡ false → Sound m → Sound (admit p m)
unfolding admit
admit-Sound p m live s = record {
  table = unfold admit in admit-IsValid p m live s.table;
  grants = s.grants;
  services = s.services;
  tokens = s.tokens;
}

-- A change to what `Sound` does not speak of.
pub same-Sound :
    (m n : PeerManager)
    → n.objects ≡ m.objects
    → n.next ≡ m.next
    → n.peers ≡ m.peers
    → n.grants ≡ m.grants
    → n.services ≡ m.services
    → n.tokens ≡ m.tokens
    → Sound m
    → Sound n
same-Sound m n o x p g v t s = record {
  table = record {
    one_entry = rw p s.table.one_entry;
    points = rw (o, p) s.table.points;
    fresh = rw (o, x) s.table.fresh;
  };
  grants = rw g s.grants;
  services = rw v s.services;
  tokens = rw t s.tokens;
}

pub sent-Sound : (m n : PeerManager) → OnlySent m n → Sound m → Sound n
sent-Sound m n (sent, e) s = rw e (same-Sound m _ refl refl refl refl refl refl s)

pub present-Sound :
    (w : World) (c : ℕ) (token : Option Text) (m : PeerManager)
    → Sound m
    → Sound (present w c token m)
unfolding present
present-Sound w c none m s = s
present-Sound w c (some token) m s = sent-Sound m _ (send_message-OnlySent w c _ m) s
