-- ===== src/Enroll/Claims.antt =====
-- enroll.rs: what minting and claiming do to the tokens that are good.
use ig.Base.{
  ℕ, ◌+◌, ◌≤◌, ◌≡◌, refl, Option, none, some, List, [], ◌∷◌, if◌then◌else◌, ltb, arith, Bool-cases,
  inl, inr,
}
use ig.Base.Text.{Text, text_eq, text_eq_iff, hex}
use ig.Enroll.{
  PendingToken, Tokens, insert_token, find_token, remove_token, unexpired, mint_with_ttl, label_of,
  claim,
}

find_token-insert_token :
    (k j : Text) (t : PendingToken) (m : List (Text × PendingToken))
    → find_token j (insert_token k t m) ≡ (if text_eq k j then some t else find_token j m)
unfolding find_token insert_token
find_token-insert_token k j t [] = refl
find_token-insert_token k j t ((i, u) ∷ m) =
    ground
      (arith, text_eq_iff k j, text_eq_iff i k, text_eq_iff i j, find_token-insert_token k j t m)

find_token-remove_token :
    (k j : Text) (m : List (Text × PendingToken))
    → find_token j (remove_token k m) ≡ (if text_eq k j then none else find_token j m)
unfolding find_token remove_token
find_token-remove_token k j [] = ground arith
find_token-remove_token k j ((i, u) ∷ m) =
    ground (arith, text_eq_iff k j, text_eq_iff i k, text_eq_iff i j, find_token-remove_token k j m)

-- No token is pending twice.
abbrev OneEach : List (Text × PendingToken) → Type 0
OneEach [] = Unit {0}
OneEach ((j, u) ∷ m) = (find_token j m ≡ none) × OneEach m

pub record IsValid (tokens : Tokens) : Type 0 where
  pub one_each : OneEach tokens.pending

fresh_label : ℕ → Option PendingToken → Option Text
fresh_label now none = none
fresh_label now (some t) = if ltb now t.expires then some t.label else none

-- What a token is good for at a time: its label, until it expires.
pub claimable : Tokens → Text → ℕ → Option Text
unfolding fresh_label
claimable tokens token now = fresh_label now (find_token token tokens.pending)

live : ℕ → Option PendingToken → Option PendingToken
live now none = none
live now (some t) = if ltb now t.expires then some t else none

find_token-unexpired-none :
    (now : ℕ) (k : Text) (m : List (Text × PendingToken))
    → find_token k m ≡ none
    → find_token k (unexpired now m) ≡ none
unfolding find_token unexpired
find_token-unexpired-none now k [] h = refl
find_token-unexpired-none now k ((j, u) ∷ m) h = ground (arith, find_token-unexpired-none now k m)

find_token-unexpired :
    (now : ℕ) (k : Text) (m : List (Text × PendingToken))
    → OneEach m
    → find_token k (unexpired now m) ≡ live now (find_token k m)
unfolding find_token unexpired live
find_token-unexpired now k [] v = refl
find_token-unexpired now k ((j, u) ∷ m) v =
    ground
      (arith, text_eq_iff j k, find_token-unexpired now k m v.1, find_token-unexpired-none now k m)

unexpired-OneEach :
    (now : ℕ) (m : List (Text × PendingToken)) → OneEach m → OneEach (unexpired now m)
unfolding unexpired
unexpired-OneEach now [] v = tt
unexpired-OneEach now ((j, u) ∷ m) v =
    ground (arith, unexpired-OneEach now m v.1, find_token-unexpired-none now j m)

remove_token-OneEach :
    (k : Text) (m : List (Text × PendingToken)) → OneEach m → OneEach (remove_token k m)
unfolding remove_token
remove_token-OneEach k [] v = tt
remove_token-OneEach k ((j, u) ∷ m) v =
    ground (arith, remove_token-OneEach k m v.1, find_token-remove_token k j m)

insert_token-OneEach :
    (k : Text) (t : PendingToken) (m : List (Text × PendingToken))
    → OneEach m
    → OneEach (insert_token k t m)
unfolding insert_token
insert_token-OneEach k t [] v = (unfold find_token in refl, tt)
insert_token-OneEach k t ((j, u) ∷ m) v = ground (
  arith,
  insert_token-OneEach k t m v.1,
  find_token-insert_token k j t m,
  text_eq_iff j k,
  text_eq_iff k j,
)

pub claim-IsValid :
    (tokens : Tokens) (token : Text) (now : ℕ) → IsValid tokens → IsValid (claim tokens token now).0
unfolding claim
claim-IsValid tokens token now v = record {
  one_each =
      remove_token-OneEach token (unexpired now tokens.pending)
        (unexpired-OneEach now tokens.pending v.one_each);
}

pub mint_with_ttl-IsValid :
    (tokens : Tokens) (bytes : List ℕ) (label : Text) (ttl now : ℕ)
    → IsValid tokens
    → IsValid (mint_with_ttl tokens bytes label ttl now).0
unfolding mint_with_ttl
mint_with_ttl-IsValid tokens bytes label ttl now v = record {
  one_each = insert_token-OneEach (hex bytes) _ tokens.pending v.one_each;
}

label_of-live : (now : ℕ) (o : Option PendingToken) → label_of (live now o) ≡ fresh_label now o
unfolding label_of live fresh_label
label_of-live now none = refl
label_of-live now (some t) = ground arith

fresh_label-live :
    (now later : ℕ) (o : Option PendingToken)
    → now ≤ later
    → fresh_label later (live now o) ≡ fresh_label later o
unfolding live fresh_label
fresh_label-live now later none h = refl
fresh_label-live now later (some t) h = ground arith

-- A claim gives the label of a token that is pending and unexpired, and `none` for any other text.
-- From then on that token is good for nothing, and every other is good for what it was.
pub claim_once :
    (tokens : Tokens) (token other : Text) (now later : ℕ)
    → IsValid tokens
    → now ≤ later
    → ((claim tokens token now).1 ≡ claimable tokens token now)
      × (claimable (claim tokens token now).0 other later
          ≡ (if text_eq token other then none else claimable tokens other later))
unfolding claim claimable
claim_once tokens token other now later v h =
    let alive = unexpired now tokens.pending in
    (
      rw (find_token-unexpired now token tokens.pending v.one_each) (label_of-live now _),
      rw
          (
            find_token-remove_token token other alive,
            find_token-unexpired now other tokens.pending v.one_each,
          )
          (ground (arith, fresh_label-live now later (find_token other tokens.pending) h)),
    )

-- A minted token is the hexadecimal text of its bytes. It is good for its label until its term
-- ends, and every other text is good for what it was.
pub claimable-mint :
    (tokens : Tokens) (bytes : List ℕ) (label other : Text) (ttl now later : ℕ)
    → let minted = mint_with_ttl tokens bytes label ttl now in
      (minted.1 ≡ hex bytes)
      × (claimable minted.0 other later ≡ (
          if text_eq (hex bytes) other
          then (if ltb later (now + ttl) then some label else none)
          else claimable tokens other later))
unfolding claimable mint_with_ttl
claimable-mint tokens bytes label other ttl now later = (
  refl,
  rw (find_token-insert_token (hex bytes) other _ tokens.pending)
      (elim (Bool-cases (text_eq (hex bytes) other)) [
        | inl e ↦ rw e (ground arith)
        | inr e ↦ rw e
      ]),
)
