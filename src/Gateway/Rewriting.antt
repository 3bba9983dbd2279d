-- ===== src/Gateway/Rewriting.antt =====
-- service.rs, `upstream_request_filter`: what the path of a request becomes.
use ig.Base.{
  ◌≡◌, refl, true, some, [], ◌∷◌, ◌++◌, arith, Bool-cases, inl, inr, unwrap_or, ◌∙◌, ap, sym,
}
use mathlib.Core.List.{append-nil}
use ig.Base.Text.{Text, text, starts_with, strip_prefix}
use ig.Gateway.{stripped_path, absolute}

absolute-starts_with : (rest : Text) → starts_with (absolute rest) (text "/") ≡ true
unfolding absolute
absolute-starts_with rest = elim (Bool-cases (starts_with rest (text "/"))) [
  | inl e ↦ rw (e, absolute) e
  | inr e ↦ rw (e, absolute) (unfold text starts_with in refl)
]

strip_prefix-append : (prefix rest : Text) → strip_prefix (prefix ++ rest) prefix ≡ some rest
unfolding strip_prefix
strip_prefix-append [] rest = refl
strip_prefix-append (c ∷ prefix) rest = ground (arith, strip_prefix-append prefix rest)

-- A path that is rewritten begins with a slash, whatever was stripped. Stripping a prefix leaves
-- what stands behind it from the next slash on, and the root where nothing does.
pub stripped_path-starts_with :
    (prefix path rest : Text)
    → (starts_with (stripped_path prefix path) (text "/") ≡ true)
      × (stripped_path prefix (prefix ++ b'/' ∷ rest) ≡ b'/' ∷ rest)
      × (stripped_path prefix prefix ≡ text "/")
unfolding stripped_path
stripped_path-starts_with prefix path rest = (
  absolute-starts_with _,
  rw (strip_prefix-append prefix (b'/' ∷ rest)) (unfold absolute text starts_with in refl),
  ap (λ s. absolute (unwrap_or s prefix))
        (ap (λ s. strip_prefix s prefix) (sym (append-nil prefix)) ∙ strip_prefix-append prefix [])
      ∙ unfold absolute text starts_with in refl,
)
