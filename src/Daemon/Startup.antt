-- ===== src/Daemon/Startup.antt =====
-- daemon.rs, `Daemon::new`: the daemon that comes up, and the pins.
use ig.Base.{ℕ, ◌≡◌, refl, Bool, false, ◌||◌, List, [], ◌∷◌, arith, ◌∙◌}
use ig.Base.Map.{get, contains_key}
use ig.Base.Text.{Text}
use ig.Failure.{Result, ok, err}
use ig.Service
use ig.Service.{Services}
use ig.Disk.{Answers, Disk}
use ig.Grants
use ig.Pins
use ig.Pins.{Pin, pins_path}
use ig.State
use ig.Peer.{PeerManager, World}
use ig.Peer.Roster.{add_pinned}
use ig.Peer.Roster.Invariant.{add_pinned-Sound}
use ig.Peer.Roster.Sharing.{Sound}
use ig.Peer.Roster.Pinning.{is_key, ToldAlike, add_pinned-knows}
use ig.Peer.History.{new_manager, new_manager-Sound}
use ig.Daemon.{Daemon, load_pinned, with_pins, new}

-- Is one of these pins for this key?
abbrev pub pins_key : World → List Pin → ℕ → Bool
pins_key w [] id = false
pins_key w (p ∷ pins) id = is_key (w.parse p.key) id || pins_key w pins id

load_pinned-knows :
    (w : World) (pins : List Pin) (m : PeerManager)
    → Sound m
    → let n = load_pinned w pins m in
      Sound n
      × ((id : ℕ) → contains_key id n.peers ≡ (pins_key w pins id || contains_key id m.peers))
      × ToldAlike n m
unfolding load_pinned
load_pinned-knows w [] m s = (s, λ id. refl, (refl, refl, refl))
load_pinned-knows w (p ∷ pins) m s =
    let (one, (a, b, c)) = add_pinned-knows w p.key p.label m in
    let (sound, all, (a', b', c')) =
      load_pinned-knows w pins (add_pinned w p.key p.label m).0
        (add_pinned-Sound w p.key p.label m s) in
    (sound, λ id. ground (arith, all id, one id), (a' ∙ a, b' ∙ b, c' ∙ c))

-- What a daemon is right after it came up: exactly the peers whose keys were pinned are known, it
-- was told nothing yet, and its files are those beside its key.
pub record Fresh (w : World) (key_path : Text) (services : Services) (pins : List Pin) (d : Daemon)
    : Type 0 where
  pub sound : Sound d.manager
  pub knows : (id : ℕ) → contains_key id d.manager.peers ≡ pins_key w pins id
  pub no_grants : d.manager.grants ≡ Grants.default
  pub no_binds : d.manager.binds ≡ []
  pub same_services : d.manager.services ≡ services
  pub beside : d.store ≡ State.store_path key_path

abbrev pub CameUp : World → Text → Services → Result (List Pin) → Result Daemon → Type 0
CameUp w key_path services (err e) r = r ≡ err e
CameUp w key_path services (ok pins) r =
    (d : Daemon) × (r ≡ ok d) × Fresh w key_path services pins d

with_pins-CameUp :
    (w : World) (me : ℕ) (key_path : Text) (services : Services) (disk : Disk)
    (r : Result (List Pin))
    → Service.IsValid services
    → CameUp w key_path services r (with_pins w me key_path services disk r)
unfolding with_pins
with_pins-CameUp w me key_path services disk (err e) v = refl
with_pins-CameUp w me key_path services disk (ok pins) v =
    let m = new_manager services (pins_path key_path) disk in
    let (sound, all, (a, b, c)) =
      load_pinned-knows w pins m (new_manager-Sound services (pins_path key_path) disk v) in
    (
      _,
      refl,
      record {
        sound = sound;
        knows = λ id. all id ∙ unfold new_manager get in ground arith;
        no_grants = a ∙ unfold new_manager in refl;
        no_binds = b ∙ unfold new_manager in refl;
        same_services = c ∙ unfold new_manager in refl;
        beside = refl;
      },
    )

-- Starting fails exactly if the pins cannot be loaded, with that error. Otherwise the daemon knows
-- exactly the peers whose keys were pinned, has no grants, no remaps and the services it was given,
-- and keeps its state beside its key.
pub new-CameUp :
    (w : World) (me : ℕ) (key_path : Text) (services : Services) (a : Answers) (disk : Disk)
    → Service.IsValid services
    → CameUp w key_path services
        (Pins.load w.pin_codec (pins_path key_path) a disk)
        (new w me key_path services a disk)
unfolding new
new-CameUp w me key_path services a disk v =
    with_pins-CameUp w me key_path services disk (Pins.load w.pin_codec (pins_path key_path) a disk)
      v
