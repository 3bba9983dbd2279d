-- ===== src/Daemon/Key/Tests.antt =====
-- daemon.rs, samples for the key.
use ig.Base.{ℕ, zero, suc, ◌≡◌, refl, List, [], ◌∷◌, none, some}
use ig.Base.Paths.{parent, join}
use ig.Base.Text.{text, rsplit_once}
use ig.Failure.{ok}
use ig.Disk.{success, find_file, perform, opened, written}
use ig.Daemon.Key.{load_or_create_key, default_key_path}
use ig.Daemon.Key.Kept.{load_or_create_key-Kept, Kept}

abbrev repeated : ℕ → ℕ → List ℕ
repeated zero b = []
repeated (suc n) b = b ∷ repeated n b

-- Thirty-two bytes.
abbrev pub sevens : List ℕ
sevens = repeated 32 7

home_test : default_key_path none (some (text "/root")) ≡ text "/root/.local/state/ig/key"
unfolding default_key_path join text
home_test = refl

pub made : (load_or_create_key (text "/k/key") sevens success []).1 ≡ ok sevens
unfolding load_or_create_key find_file parent rsplit_once opened written text
made = refl

load_or_create_key-Kept_example :
    let actions = (load_or_create_key (text "/k/key") sevens success []).0 in
    Kept (text "/k/key") [] actions sevens
    × (load_or_create_key (text "/k/key") (repeated 32 8) success (perform actions [])
        ≡ ([], ok sevens))
load_or_create_key-Kept_example =
    load_or_create_key-Kept (text "/k/key") sevens (repeated 32 8) sevens success success [] refl
      refl made
