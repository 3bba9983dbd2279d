-- ===== src/Grants/Tests.antt =====
-- Sample histories of grants.
use ig.Base.{◌≡◌, some, List, [], ◌∷◌, Above}
use ig.Grants.{allows, ports_for}
use ig.Grants.Views.{ports_for-allows}
use ig.Grants.Refinement.{Change, grant, revoke, evict, run, table, run-IsValid, allows-run}

-- Ports 80 and 22 for the peer 1, 80 for the peer 2, which was evicted and granted 443 again.
abbrev history : List Change
history = grant 443 2 ∷ evict 2 ∷ grant 80 2 ∷ revoke 22 (some 3) ∷ grant 80 1 ∷ grant 22 1 ∷ []

allows-run_example : allows (run history) 80 2 ≡ table history 80 2
allows-run_example = allows-run history 80 2

ports_for-allows_example : Above 0 (ports_for (run history) 1)
ports_for-allows_example = (ports_for-allows (run history) 1 (run-IsValid history)).0
