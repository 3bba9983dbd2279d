-- ===== src/Failure.antt =====
-- protocol.rs, the errors: `ErrorKind`, `Failure`, and the `anyhow::Error` chains they travel in.
use ig.Base.{ℕ, ◌≡◌, refl, Bool, true, false, Option, none, some, List, [], ◌∷◌, ◌++◌, unwrap_or}
use ig.Base.Text.{Text, text}

pub data ErrorKind : Type 0 where
  invalid not_found conflict denied unavailable internal : ErrorKind

unfoldable pub exit_code : ErrorKind → ℕ
exit_code invalid = 2
exit_code not_found = 3
exit_code denied = 4
exit_code conflict = 5
exit_code unavailable = 7
exit_code internal = 1

pub record Failure : Type 0 where
  pub kind : ErrorKind
  pub message : Text

-- One link of a chain: a plain message, or a classified failure.
pub data Link : Type 0 where
  note : Text → Link
  failure : Failure → Link

-- An `anyhow::Error`, the outermost context first.
abbrev pub Error : Type 0
Error = List Link

find_kind : Error → Option ErrorKind
find_kind [] = none
find_kind (note m ∷ e) = find_kind e
find_kind (failure f ∷ e) = some f.kind

unfoldable pub kind_of : Error → ErrorKind
unfolding find_kind
kind_of e = unwrap_or (find_kind e) internal

link_text : Link → Text
link_text (note m) = m
link_text (failure f) = f.message

-- `format!("{err:#}")`: the links joined by ": ".
unfoldable pub render : Error → Text
unfolding link_text
render [] = []
render (l ∷ []) = link_text l
render (l ∷ e) = link_text l ++ text ": " ++ render e

-- `Failure::new(kind, message).into()`.
abbrev pub fail : ErrorKind → Text → Error
fail kind message = failure (record { kind = kind; message = message }) ∷ []

-- `anyhow!(message)`: an error that nothing classified.
abbrev pub anyhow : Text → Error
anyhow message = note message ∷ []

pub data Result {ℓ} (A : Type ℓ) : Type ℓ where
  ok : A → Result A
  err : Error → Result A

-- The question mark operator: an error returns at once.
abbrev pub ◌>>=◌ {κ μ} : {V : Type κ} {W : Type μ} → Result V → (V → Result W) → Result W
err failed >>= next = err failed
ok value >>= next = next value

abbrev pub ◌>>◌ {κ} : {W : Type κ} → Result (Unit {0}) → Result W → Result W
first >> next = first >>= λ _. next

infixl 5 ◌>>=◌ ◌>>◌
-- `r.with_context(|| message)`.
abbrev pub with_context {ℓ} : {A : Type ℓ} → Text → Result A → Result A
with_context message (ok a) = ok a
with_context message (err e) = err (note message ∷ e)

abbrev pub is_ok {ℓ} : {A : Type ℓ} → Result A → Bool
is_ok (ok a) = true
is_ok (err e) = false

-- Adding context never changes how an error is classified.
pub kind_of-note : (m : Text) (e : Error) → kind_of (note m ∷ e) ≡ kind_of e
unfolding kind_of
kind_of-note m e = refl

pub kind_of-fail : (kind : ErrorKind) (m : Text) → kind_of (fail kind m) ≡ kind
unfolding kind_of
kind_of-fail kind m = refl

pub ok-injective {ℓ} : {A : Type ℓ} (a b : A) → ok a ≡ ok b → a ≡ b
ok-injective a b e = cc

-- Both steps of a chain that ends well end well.
pub bind-ok {κ μ} :
    {V : Type κ} {W : Type μ} (r : Result V) (f : V → Result W) (w : W)
    → (r >>= f) ≡ ok w
    → (v : V) × (r ≡ ok v) × (f v ≡ ok w)
bind-ok (err e) f w h = cc
bind-ok (ok v) f w h = (v, refl, h)

-- What a step with context made, it made without.
pub with_context-ok {ℓ} :
    {A : Type ℓ} (m : Text) (r : Result A) (a : A) → with_context m r ≡ ok a → r ≡ ok a
with_context-ok m (ok b) a h = h
with_context-ok m (err e) a h = cc
