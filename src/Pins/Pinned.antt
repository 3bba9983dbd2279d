-- ===== src/Pins/Pinned.antt =====
-- The pin list as a map from keys to labels.
use ig.Base.{◌≡◌, refl, Option, none, some, List, [], ◌∷◌, ◌++◌, if◌then◌else◌, arith}
use ig.Base.Text.{Text, text_eq, text_eq_iff}
use ig.Pins.{Pin, other_pins, add_pin, pinned}

pub pinned-other_pins :
    (key other : Text) (pins : List Pin)
    → pinned other (other_pins key pins) ≡ (if text_eq key other then none else pinned other pins)
unfolding pinned other_pins
pinned-other_pins key other [] = ground arith
pinned-other_pins key other (p ∷ pins) = ground (
  arith,
  text_eq_iff p.key key,
  text_eq_iff p.key other,
  text_eq_iff key other,
  pinned-other_pins key other pins,
)

or_else : Option Text → Option Text → Option Text
or_else none o = o
or_else (some l) o = some l

pinned-append :
    (other key label : Text) (pins : List Pin)
    → pinned other (pins ++ record { key = key; label = label } ∷ [])
      ≡ or_else (pinned other pins) (if text_eq key other then some label else none)
unfolding pinned or_else
pinned-append other key label [] = refl
pinned-append other key label (p ∷ pins) = ground (arith, pinned-append other key label pins)

pub pinned-add_pin :
    (key label other : Text) (pins : List Pin)
    → pinned other (add_pin key label pins)
      ≡ (if text_eq key other then some label else pinned other pins)
unfolding add_pin or_else
pinned-add_pin key label other pins =
    rw (pinned-append other key label (other_pins key pins), pinned-other_pins key other pins)
      (ground arith)
