-- ===== src/Enroll.antt =====
-- enroll.rs: one-time tokens. Times are seconds on one
-- monotonic clock, handed to each call; the random bytes of a token are an argument too.
mod Tests
pub mod Claims
use ig.Base.{
  ℕ, ◌+◌, ◌*◌, Bool, true, false, not, Option, none, some, List, [], ◌∷◌, ◌++◌, if◌then◌else◌, ltb,
}
use ig.Base.Text.{Text, text_eq, hex}

abbrev pub token_ttl : ℕ
token_ttl = 5 * 60

pub record PendingToken : Type 0 where
  pub label : Text
  pub expires : ℕ

pub record Tokens : Type 0 where
  pub pending : List (Text × PendingToken)

insert_token : Text → PendingToken → List (Text × PendingToken) → List (Text × PendingToken)
insert_token k t [] = (k, t) ∷ []
insert_token k t ((j, u) ∷ m) = if text_eq j k then (j, t) ∷ m else (j, u) ∷ insert_token k t m

pub find_token : Text → List (Text × PendingToken) → Option PendingToken
find_token k [] = none
find_token k ((j, u) ∷ m) = if text_eq j k then some u else find_token k m

remove_token : Text → List (Text × PendingToken) → List (Text × PendingToken)
remove_token k [] = []
remove_token k ((j, u) ∷ m) = if text_eq j k then remove_token k m else (j, u) ∷ remove_token k m

-- `pending.retain(|_, t| t.expires > now)`.
unexpired : ℕ → List (Text × PendingToken) → List (Text × PendingToken)
unexpired now [] = []
unexpired now ((j, u) ∷ m) = if ltb now u.expires then (j, u) ∷ unexpired now m else unexpired now m

abbrev pub default : Tokens
default = record { pending = [] }

unfoldable pub mint_with_ttl : Tokens → List ℕ → Text → ℕ → ℕ → Tokens × Text
unfolding insert_token
mint_with_ttl tokens bytes label ttl now =
    let token = hex bytes in
    (
      record {
        pending = insert_token token (record { label = label; expires = now + ttl }) tokens.pending;
      },
      token,
    )

unfoldable pub mint : Tokens → List ℕ → Text → ℕ → Tokens × Text
unfolding mint_with_ttl
mint tokens bytes label now = mint_with_ttl tokens bytes label token_ttl now

label_of : Option PendingToken → Option Text
label_of none = none
label_of (some t) = some t.label

unfoldable pub claim : Tokens → Text → ℕ → Tokens × Option Text
unfolding unexpired remove_token find_token label_of
claim tokens token now =
    let alive = unexpired now tokens.pending in
    (record { pending = remove_token token alive }, label_of (find_token token alive))
