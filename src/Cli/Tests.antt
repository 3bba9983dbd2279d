-- ===== src/Cli/Tests.antt =====
-- main.rs: samples.
use ig.Base.{◌≡◌, ◌↔◌, refl, none, some}
use ig.Base.Text.{text}
use ig.Cli.{parse_bind, parse_u16, parsed}
use ig.Cli.Binds.{parse_bind_iff, Pair}

plus_test : parse_u16 (text "+80") ≡ some 80
unfolding text parse_u16
plus_test = refl

overflow_test : parse_u16 (text "65536") ≡ none
unfolding text parse_u16
overflow_test = refl

parse_bind_iff_example :
    (parse_bind (text "8080:80") ≡ parsed (8080, 80)) ↔ Pair (text "8080:80") (8080, 80)
parse_bind_iff_example = parse_bind_iff (text "8080:80") (8080, 80)
