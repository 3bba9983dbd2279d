-- ===== src/State/Tests.antt =====
-- Saving a sample state.
use ig.Base.{◌≡◌, refl, [], ◌∷◌}
use ig.Base.Text.{text}
use ig.Failure.{ok}
use ig.Backend.{BackendSpec}
use ig.Disk.{Disk, success, perform, write_json}
use ig.Disk.Sample.{state_codec}
use ig.State.{State, default, load, load_file, save}
use ig.State.Restart.{Saved, load-save}

abbrev told : State
told = record {
  version = 0;
  grants = (80, text "abc") ∷ [];
  services = (80, BackendSpec.unix (text "/run/web.sock")) ∷ [];
  binds = (5432, 15432) ∷ [];
}

load-save_example :
    Saved state_codec
      (text "key.state.json")
      told
      success
      []
      (save state_codec (text "key.state.json") 7 told success [])
load-save_example = load-save state_codec (text "key.state.json") 7 told success success [] refl

load-nothing : load state_codec (text "key.state.json") success [] ≡ ok default
unfolding load ig.Disk.find_file load_file
load-nothing = refl
