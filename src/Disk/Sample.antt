-- ===== src/Disk/Sample.antt =====
-- Codecs that the tests use in place of the encoder library: each value is written as a row of
-- numbers that begins with its length or its tag, and is read back from the front of a row.
use ig.Base.{ℕ, zero, suc, ◌≡◌, refl, Bool, true, false, Option, none, some, List, [], ◌∷◌, length}
use ig.Base.Text.{Text, text}
use ig.Failure.{Result, ok, err, anyhow, ok-injective}
use ig.Backend.{BackendSpec, Route, http, tcp, unix}
use ig.Disk.{Codec}
use ig.Pins.{Pin}
use ig.State.{State}

-- What a reader makes of a row, and what it leaves of it.
abbrev pub Read : Type 0 → Type 0
Read A = Option (A × List ℕ)

pub record Sample (A : Type 0) : Type 0 where
  pub put : A → List ℕ → List ℕ
  pub get : List ℕ → Read A
  pub back : (a : A) (rest : List ℕ) → get (put a rest) ≡ some (a, rest)

abbrev and_then : {A B : Type 0} → Read A → (A → List ℕ → Read B) → Read B
and_then none f = none
and_then (some (a, rest)) f = f a rest

abbrev get_number : List ℕ → Read ℕ
get_number [] = none
get_number (n ∷ rest) = some (n, rest)

abbrev number : Sample ℕ
number = record { put = λ n rest. n ∷ rest; get = get_number; back = λ n rest. refl }

module _ {A B : Type 0} where
  abbrev pair : Sample A → Sample B → Sample (A × B)
  pair a b = record {
    put = λ v rest. a.put v.0 (b.put v.1 rest);
    get = λ row. and_then (a.get row) λ x more. and_then (b.get more) λ y rest. some ((x, y), rest);
    back = λ v rest. rw (a.back v.0 (b.put v.1 rest), b.back v.1 rest);
  }

  -- The same row for a type that is another one in disguise.
  abbrev through : (f : B → A) (g : A → B) → ((b : B) → g (f b) ≡ b) → Sample A → Sample B
  through f g same a = record {
    put = λ b rest. a.put (f b) rest;
    get = λ row. and_then (a.get row) λ x rest. some (g x, rest);
    back = λ b rest. rw (a.back (f b) rest, same b);
  }

module _ {A : Type 0} (a : Sample A) where
  abbrev put_all : List A → List ℕ → List ℕ
  put_all [] rest = rest
  put_all (x ∷ xs) rest = a.put x (put_all xs rest)

  abbrev get_all : ℕ → List ℕ → Read (List A)
  get_all zero row = some ([], row)
  get_all (suc n) row =
      and_then (a.get row) λ x more. and_then (get_all n more) λ xs rest. some (x ∷ xs, rest)

  pub get_all-put_all :
      (xs : List A) (rest : List ℕ) → get_all (length xs) (put_all xs rest) ≡ some (xs, rest)
  get_all-put_all [] rest = refl
  get_all-put_all (x ∷ xs) rest = rw (a.back x (put_all xs rest), get_all-put_all xs rest)

  abbrev get_counted : List ℕ → Read (List A)
  get_counted [] = none
  get_counted (n ∷ row) = get_all n row

  abbrev many : Sample (List A)
  many = record {
    put = λ xs rest. length xs ∷ put_all xs rest;
    get = get_counted;
    back = λ xs rest. get_all-put_all xs rest;
  }

  abbrev put_option : Option A → List ℕ → List ℕ
  put_option none rest = 0 ∷ rest
  put_option (some x) rest = 1 ∷ a.put x rest

  abbrev get_option : List ℕ → Read (Option A)
  get_option [] = none
  get_option (zero ∷ rest) = some (none, rest)
  get_option (suc n ∷ row) = and_then (a.get row) λ x rest. some (some x, rest)

  pub put_option-back :
      (o : Option A) (rest : List ℕ) → get_option (put_option o rest) ≡ some (o, rest)
  put_option-back none rest = refl
  put_option-back (some x) rest = rw (a.back x rest)

  abbrev optional : Sample (Option A)
  optional = record { put = put_option; get = get_option; back = put_option-back }

  abbrev read_whole : Read A → Result A
  read_whole none = err (anyhow (text "not readable"))
  read_whole (some (x, rest)) = ok x

  pub read_whole-put :
      (x : A) (bytes : List ℕ) → ok (a.put x []) ≡ ok bytes → read_whole (a.get bytes) ≡ ok x
  read_whole-put x bytes e = rw (← ok-injective (a.put x []) bytes e, a.back x [])

  abbrev pub sample_codec : Codec A
  sample_codec = record {
    encode = λ x. ok (a.put x []);
    decode = λ bytes. read_whole (a.get bytes);
    round_trip = read_whole-put;
  }

abbrev words : Sample Text
words = many number

abbrev flag_of : ℕ → Bool
flag_of zero = false
flag_of (suc n) = true

abbrev of_flag : Bool → ℕ
of_flag false = 0
of_flag true = 1

pub of_flag-back : (b : Bool) → flag_of (of_flag b) ≡ b
of_flag-back false = refl
of_flag-back true = refl

abbrev flag : Sample Bool
flag = through of_flag flag_of of_flag-back number

abbrev RouteParts : Type 0
RouteParts =
    (Option Text × Option Text)
    × ((Option Text × Option Text) × ((Bool × Option Text) × (Bool × Option Text)))

abbrev route_parts : Route → RouteParts
route_parts r =
    ((r.host, r.prefix), ((r.upstream, r.unix), ((r.tls, r.sni), (r.strip_prefix, r.host_header))))

abbrev route_of : RouteParts → Route
route_of ((host, prefix), ((upstream, path), ((tls, sni), (stripped, host_header)))) = record {
  host = host;
  prefix = prefix;
  upstream = upstream;
  unix = path;
  tls = tls;
  sni = sni;
  strip_prefix = stripped;
  host_header = host_header;
}

abbrev route : Sample Route
route =
    through route_parts route_of (λ r. refl)
      (pair (pair (optional words) (optional words)) (
        pair (pair (optional words) (optional words))
          (pair (pair flag (optional words)) (pair flag (optional words)))))

-- A spec as its tag, its text and its routes.
abbrev SpecParts : Type 0
SpecParts = ℕ × (Text × List Route)

abbrev spec_parts : BackendSpec → SpecParts
spec_parts (http routes) = (0, ([], routes))
spec_parts (tcp upstream) = (1, (upstream, []))
spec_parts (unix path) = (2, (path, []))

abbrev of_parts : SpecParts → BackendSpec
of_parts (zero, (body, routes)) = http routes
of_parts (suc zero, (body, routes)) = tcp body
of_parts (suc (suc n), (body, routes)) = unix body

pub of_parts-back : (spec : BackendSpec) → of_parts (spec_parts spec) ≡ spec
of_parts-back (http routes) = refl
of_parts-back (tcp upstream) = refl
of_parts-back (unix path) = refl

abbrev spec : Sample BackendSpec
spec = through spec_parts of_parts of_parts-back (pair number (pair words (many route)))

abbrev StateParts : Type 0
StateParts = (ℕ × List (ℕ × Text)) × (List (ℕ × BackendSpec) × List (ℕ × ℕ))

abbrev state_parts : State → StateParts
state_parts s = ((s.version, s.grants), (s.services, s.binds))

abbrev state_of : StateParts → State
state_of ((version, grants), (services, binds)) = record {
  version = version;
  grants = grants;
  services = services;
  binds = binds;
}

abbrev state : Sample State
state =
    through state_parts state_of (λ s. refl)
      (pair (pair number (many (pair number words)))
        (pair (many (pair number spec)) (many (pair number number))))

abbrev pub state_codec : Codec State
state_codec = sample_codec state

abbrev pin_parts : Pin → Text × Text
pin_parts p = (p.key, p.label)

abbrev pin_of : Text × Text → Pin
pin_of (key, label) = record { key = key; label = label }

abbrev pin : Sample Pin
pin = through pin_parts pin_of (λ p. refl) (pair words words)

abbrev pub pins_codec : Codec (List Pin)
pins_codec = sample_codec (many pin)
