-- ===== src/Pins/Tests.antt =====
-- A pin on an empty disk.
use ig.Base.{refl, some, none, []}
use ig.Base.Text.{text}
use ig.Disk.{success}
use ig.Disk.Sample.{pins_codec}
use ig.Pins.{add, remove}
use ig.Pins.Stored.{Relabels, pins-stored}

pins-stored_example :
    Relabels pins_codec
      (text "pins")
      (text "abc")
      (some (text "laptop"))
      success
      success
      []
      (add pins_codec (text "pins") 7 (text "abc") (text "laptop") success [])
    × Relabels pins_codec
        (text "pins")
        (text "abc")
        none
        success
        success
        []
        (remove pins_codec (text "pins") 7 (text "abc") success [])
pins-stored_example =
    pins-stored pins_codec (text "pins") 7 (text "abc") (text "laptop") success success [] refl
