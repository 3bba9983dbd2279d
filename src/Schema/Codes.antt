-- ===== src/Schema/Codes.antt =====
-- schema.rs: the printed table against the exit codes of protocol.rs.
use ig.Base.{ℕ, ◌≡◌, refl, some}
use ig.Base.Text.{Text, text, text_eq, decimal}
use ig.Failure.{
  ErrorKind, invalid, not_found, conflict, denied, unavailable, internal, exit_code, Result, ok,
  err,
}
use ig.Schema.{exit_codes, meaning}

-- What a kind of error is called in the table.
abbrev called : ErrorKind → Text
called invalid = text "invalid arguments or request"
called not_found = text "not found"
called conflict = text "conflict"
called denied = text "denied"
called unavailable = text "daemon unavailable"
called internal = text "internal error"

-- Every kind of error is in the table under the code that the process exits with.
pub exit_codes-meaning :
    (kind : ErrorKind) → meaning (decimal (exit_code kind)) exit_codes ≡ some (called kind)
unfolding exit_codes meaning exit_code decimal text text_eq
exit_codes-meaning invalid = refl
exit_codes-meaning not_found = refl
exit_codes-meaning conflict = refl
exit_codes-meaning denied = refl
exit_codes-meaning unavailable = refl
exit_codes-meaning internal = refl

-- The code is in the table that the program prints of its exit codes.
abbrev pub Published : ℕ → Type 0
Published code = (words : Text) × (meaning (decimal code) exit_codes ≡ some words)

-- If there is a code, it is published.
abbrev pub PublishedResult : Result ℕ → Type 0
PublishedResult (ok code) = Published code
PublishedResult (err e) = Unit {0}

pub zero-Published : Published 0
unfolding exit_codes meaning decimal text text_eq
zero-Published = (text "success", refl)

pub kind-Published : (kind : ErrorKind) → Published (exit_code kind)
kind-Published kind = (_, exit_codes-meaning kind)
