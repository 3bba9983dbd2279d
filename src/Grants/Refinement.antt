-- ===== src/Grants/Refinement.antt =====
-- grants.rs against its specification: a table that answers, for a port and a peer, yes or no.
use ig.Base.{ℕ, ◌≡◌, Bool, false, not, ◌&&◌, ◌||◌, Option, List, [], ◌∷◌, arith, ◌==◌}
use ig.Grants.{Grants, default, add, remove, revoke_grantee, allows, IsValid}
use ig.Grants.Access.{allows-default, allows-add, allows-remove, allows-revoke_grantee, revokes}
use ig.Grants.Invariant.{default-IsValid, add-IsValid, remove-IsValid, revoke_grantee-IsValid}

pub data Change : Type 0 where
  grant : ℕ → ℕ → Change
  revoke : ℕ → Option ℕ → Change
  evict : ℕ → Change

apply : Grants → Change → Grants
apply g (grant port grantee) = add g port grantee
apply g (revoke port to) = remove g port to
apply g (evict peer) = revoke_grantee g peer

-- The latest change comes first.
unfoldable pub run : List Change → Grants
unfolding apply
run [] = default
run (c ∷ cs) = apply (run cs) c

-- The table after the changes: default deny, and each change overrides what came before it.
unfoldable pub table : List Change → ℕ → ℕ → Bool
table [] q peer = false
table (grant port grantee ∷ cs) q peer = (port == q && grantee == peer) || table cs q peer
table (revoke port to ∷ cs) q peer = not (revokes port to q peer) && table cs q peer
table (evict gone ∷ cs) q peer = not (gone == peer) && table cs q peer

pub run-IsValid : (cs : List Change) → IsValid (run cs)
unfolding run
run-IsValid [] = default-IsValid
run-IsValid (grant port grantee ∷ cs) = add-IsValid (run cs) port grantee (run-IsValid cs)
run-IsValid (revoke port to ∷ cs) = remove-IsValid (run cs) port to (run-IsValid cs)
run-IsValid (evict peer ∷ cs) = revoke_grantee-IsValid (run cs) peer (run-IsValid cs)

-- After any history of grants, revocations and evictions, a port is open to a peer exactly where
-- the table of that history says so.
pub allows-run : (cs : List Change) (q peer : ℕ) → allows (run cs) q peer ≡ table cs q peer
unfolding run table
allows-run [] q peer = allows-default q peer
allows-run (grant port grantee ∷ cs) q peer =
    ground (arith, allows-add (run cs) port grantee q peer, allows-run cs q peer)
allows-run (revoke port to ∷ cs) q peer =
    ground (arith, allows-remove (run cs) port to q peer, allows-run cs q peer)
allows-run (evict gone ∷ cs) q peer =
    ground
      (arith, allows-revoke_grantee (run cs) gone q peer (run-IsValid cs), allows-run cs q peer)
