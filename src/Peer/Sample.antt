-- ===== src/Peer/Sample.antt =====
-- A world and a manager for the tests: two peers, the first of which listens for a port.
use ig.Base.{
  ℕ, ◌≡◌, refl, true, false, Option, none, some, List, [], ◌∷◌, arith, contains, if◌then◌else◌,
  ◌==◌, Bool-cases, inl, inr,
}
use ig.Base.Map.{get, keys}
use ig.Base.Text.{Text, text}
use ig.Grants
use ig.Grants.Invariant.{default-IsValid, add-IsValid}
use ig.Service
use ig.Service.{v4}
use ig.Service.Registry.{new-IsValid}
use ig.Enroll
use ig.Disk.{success}
use ig.Disk.Sample.{pins_codec}
use ig.Peer.{Peer, PeerManager, World, IsValid}
use ig.Peer.Announce.Since.{Known}
use ig.Peer.Roster.Sharing.{Sound}

-- A key is written as the one character that it is.
abbrev pub one_character : Text → Option ℕ
one_character [] = none
one_character (c ∷ []) = some c
one_character (c ∷ d ∷ s) = none

-- A local port that is free is given.
abbrev pub give_free : List ℕ → ℕ → Option ℕ
give_free held local = if contains held local then none else some local

abbrev pub world : World
world = record {
  parse = one_character;
  parse_error = λ s. text "not one character";
  key_text = λ id. id ∷ [];
  bind_os = give_free;
  remote_open = λ c. true;
  responds = λ c. true;
  dial = λ id. none;
  dial_error = λ id. text "unreachable";
  delivers = λ c. true;
  now = 1000;
  pid = 7;
  pin_codec = pins_codec;
  pin_answers = success;
}

abbrev pub first : Peer
first = record {
  endpoint_id = 70;
  label = some (text "desktop");
  dial = true;
  enroll_token = none;
  connection = some 1;
  exposed = 80 ∷ [];
  bindings = (80, 8080) ∷ [];
  notified = false;
  removed = false;
}

abbrev pub second : Peer
second = record {
  endpoint_id = 90;
  label = none;
  dial = false;
  enroll_token = none;
  connection = some 2;
  exposed = [];
  bindings = [];
  notified = false;
  removed = false;
}

abbrev pub granted : Grants.Grants
granted = Grants.add Grants.default 22 70

abbrev pub manager : PeerManager
manager = record {
  objects = (0, first) ∷ (1, second) ∷ [];
  next = 2;
  peers = (70, 0) ∷ (90, 1) ∷ [];
  binds = (80, 8080) ∷ [];
  grants = granted;
  tokens = Enroll.default;
  services = Service.new (v4 (text "127.0.0.1"));
  disk = [];
  pins = text "key.peers.json";
  closed = [];
  sent = [];
}

pub granted-IsValid : Grants.IsValid granted
granted-IsValid = add-IsValid Grants.default 22 70 default-IsValid

pub manager-IsValid : IsValid manager
unfolding keys get
manager-IsValid = record {
  one_entry = (refl, (refl, tt));
  points = points;
  fresh = λ a h. ground arith;
}
  where
    points :
        (id addr : ℕ)
        → get id manager.peers ≡ some addr
        → (p : Peer) × (get addr manager.objects ≡ some p)
          × (p.endpoint_id ≡ id)
          × (p.removed ≡ false)
    points id addr h = elim (Bool-cases (70 == id)) [
      | inl e ↦ let at : addr ≡ 0 = ground arith in rw at (first, refl, ground arith, refl)
      | inr e ↦ let at : addr ≡ 1 = ground arith in rw at (second, refl, ground arith, refl)
    ]

pub manager-Sound : Sound manager
manager-Sound = record {
  table = manager-IsValid;
  grants = granted-IsValid;
  services = new-IsValid (v4 (text "127.0.0.1"));
  tokens = record { one_each = tt };
}

pub first-Known : Known manager 70 0 first
unfolding get
first-Known = record { valid = manager-IsValid; known = refl; at = refl }

pub second-Known : Known manager 90 1 second
unfolding get
second-Known = record { valid = manager-IsValid; known = refl; at = refl }
