-- ===== src/Base/Lines.antt =====
-- Texts as the standard library cuts them: white space, lines, the first separator, lower case.
use Prim.Native.Nat.{ℕ, ◌+◌}
use mathlib.Core.Path.{◌≡◌, refl, ap, subst}
use mathlib.Core.Bool.{Bool, false, ◌&&◌, ◌||◌}
use mathlib.Core.List.{List, [], ◌∷◌, ◌++◌, map}
use mathlib.Core.Option.{Option, none, some}
use native.Mathlib.Omega.{arith}
use ig.Base.Tests.{leb, ◌==◌, if◌then◌else◌}
use ig.Base.Lists.{contains}
use ig.Base.Text.{Text, starts_with, strip_prefix}

-- `char::is_whitespace`.
pub is_whitespace : ℕ → Bool
is_whitespace c =
    (leb 9 c && leb c 13)
    || c == 32
    || c == 133
    || c == 160
    || c == 5760
    || (leb 8192 c && leb c 8202)
    || c == 8232
    || c == 8233
    || c == 8239
    || c == 8287
    || c == 12288

trim_start : Text → Text
unfolding is_whitespace
trim_start [] = []
trim_start (c ∷ cs) = if is_whitespace c then trim_start cs else c ∷ cs

trimmed_end : ℕ → Text → Text
unfolding is_whitespace
trimmed_end c [] = if is_whitespace c then [] else c ∷ []
trimmed_end c (d ∷ ds) = c ∷ d ∷ ds

trim_end : Text → Text
unfolding trimmed_end
trim_end [] = []
trim_end (c ∷ cs) = trimmed_end c (trim_end cs)

unfoldable pub trim : Text → Text
unfolding trim_start trim_end
trim s = trim_end (trim_start s)

-- `to_lowercase`, of ASCII letters: no other letter has a lower case that is a hexadecimal digit.
lower : ℕ → ℕ
lower c = if leb 65 c && leb c 90 then c + 32 else c

unfoldable pub to_lowercase : Text → Text
unfolding lower
to_lowercase s = map lower s

on_line : ℕ → List Text → List Text
on_line c [] = (c ∷ []) ∷ []
on_line c (l ∷ ls) = (c ∷ l) ∷ ls

-- `str::lines`: a line ends with a newline, and a carriage return before it belongs to the end.
unfoldable pub lines : Text → List Text
unfolding on_line
lines [] = []
lines (c ∷ cs) =
    let rest = lines cs in
    if c == 10
    then [] ∷ rest
    else if c == 13 && starts_with cs (10 ∷ [])
    then rest
    else on_line c rest

later : ℕ → Option (Text × Text) → Option (Text × Text)
later c none = none
later c (some (head, tail)) = some (c ∷ head, tail)

split_here : Option Text → Option (Text × Text) → Option (Text × Text)
split_here (some tail) rest = some ([], tail)
split_here none rest = rest

-- `s.split_once(sep)`: split at the first occurrence.
unfoldable pub split_once : Text → Text → Option (Text × Text)
unfolding later split_here
split_once sep [] = split_here (strip_prefix [] sep) none
split_once sep (c ∷ cs) = split_here (strip_prefix (c ∷ cs) sep) (later c (split_once sep cs))

-- `trim_start_matches(c)`.
unfoldable pub trim_start_matches : ℕ → Text → Text
trim_start_matches c [] = []
trim_start_matches c (d ∷ ds) = if d == c then trim_start_matches c ds else d ∷ ds

strip_prefix-join : (s p tail : Text) → strip_prefix s p ≡ some tail → s ≡ p ++ tail
unfolding strip_prefix
strip_prefix-join s [] tail h = cc
strip_prefix-join [] (p ∷ ps) tail h = cc
strip_prefix-join (c ∷ cs) (p ∷ ps) tail h = ground (arith, strip_prefix-join cs ps tail)

abbrev Joins : Text → Text → Option (Text × Text) → Type 0
Joins sep s none = Unit {0}
Joins sep s (some (head, tail)) = s ≡ head ++ (sep ++ tail)

split_here-Joins :
    (sep s : Text) (o : Option Text) (rest : Option (Text × Text))
    → ((t : Text) → o ≡ some t → s ≡ sep ++ t)
    → Joins sep s rest
    → Joins sep s (split_here o rest)
unfolding split_here
split_here-Joins sep s none rest f j = j
split_here-Joins sep s (some t) rest f j = f t refl

later-Joins :
    (sep s : Text) (c : ℕ) (o : Option (Text × Text))
    → Joins sep s o
    → Joins sep (c ∷ s) (later c o)
unfolding later
later-Joins sep s c none j = tt
later-Joins sep s c (some (head, tail)) j = ap (◌∷◌ c) j

split_once-Joins : (sep s : Text) → Joins sep s (split_once sep s)
unfolding split_once
split_once-Joins sep [] = split_here-Joins sep [] _ none (λ t h. strip_prefix-join [] sep t h) tt
split_once-Joins sep (c ∷ cs) =
    split_here-Joins sep (c ∷ cs) _ _ (λ t h. strip_prefix-join (c ∷ cs) sep t h)
      (later-Joins sep cs c (split_once sep cs) (split_once-Joins sep cs))

-- The parts and the separator make up the text.
pub split_once-join :
    (sep s head tail : Text) → split_once sep s ≡ some (head, tail) → s ≡ head ++ (sep ++ tail)
split_once-join sep s head tail h = subst (Joins sep s) h (split_once-Joins sep s)

-- A separator of one character is found where it first stands.
pub split_once-at :
    (c : ℕ) (head tail : Text)
    → contains head c ≡ false
    → split_once (c ∷ []) (head ++ c ∷ tail) ≡ some (head, tail)
unfolding split_once split_here later strip_prefix
split_once-at c [] tail h = ground arith
split_once-at c (d ∷ head) tail h = ground (arith, split_once-at c head tail)
