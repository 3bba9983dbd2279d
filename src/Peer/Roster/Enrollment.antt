-- ===== src/Peer/Roster/Enrollment.antt =====
-- peer.rs, `handle_enrollment`: who is let in.
use ig.Base.{◌≢◌, true, contains, ℕ, ◌≤◌, ◌≡◌, Option, none, some, List, ◌∷◌}
use ig.Base.Text.{Text}
use ig.Failure.{Result, ok, err}
use ig.Disk.{Disk}
use ig.Enroll.{Tokens}
use ig.Enroll.Claims
use ig.Enroll.Claims.{claimable}
use ig.Peer.{Peer, PeerManager, World}
use ig.Peer
use ig.Peer.Binding.{local_for}
use ig.Peer.Roster.Clear.{Clear}

-- The peer was let in: it presented a token that was good, and that is good for nothing any more;
-- and no port that it announced before lands on a fixed local port of a live peer.
pub record Admitted (w : World) (id : ℕ) (shown : Option Text × Option (List ℕ)) (m n : PeerManager)
    : Type 0 where
  pub token : Text
  pub label : Text
  pub presented_it : shown.0 ≡ some token
  pub good : claimable m.tokens token w.now ≡ some label
  pub spent : (later : ℕ) → w.now ≤ later → claimable n.tokens token later ≡ none
  pub clear :
      (ports : List ℕ)
      → shown.1 ≡ some ports
      → (port : ℕ) → contains ports port ≡ true
      → local_for m port ≢ 0
      → Clear w m id port

-- A peer that is refused has its connection closed; nothing else but the tokens changes. Where the
-- pin could not be written, nothing but the tokens and the disk changes.
abbrev pub EnrollmentOutcome :
    World
    → ℕ
    → ℕ
    → Option Text × Option (List ℕ)
    → PeerManager
    → PeerManager × Result (Option ℕ)
    → Type 0
EnrollmentOutcome w id c shown m (n, ok none) =
    (tokens : Tokens) × (n ≡ record m { tokens = tokens; closed = c ∷ m.closed })
EnrollmentOutcome w id c shown m (n, ok (some addr)) = (addr ≡ m.next) × Admitted w id shown m n
EnrollmentOutcome w id c shown m (n, err e) =
    (tokens : Tokens) × ((disk : Disk) × (n ≡ record m { tokens = tokens; disk = disk }))
