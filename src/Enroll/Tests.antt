-- ===== src/Enroll/Tests.antt =====
-- Sample tokens.
use ig.Base.{◌≡◌, none, [], ◌∷◌, if◌then◌else◌, arith}
use ig.Base.Text.{text, text_eq}
use ig.Enroll.{Tokens, default, mint_with_ttl, claim}
use ig.Enroll.Claims.{IsValid, claimable, claim_once, mint_with_ttl-IsValid}

abbrev minted : Tokens
minted = (mint_with_ttl default (0xab ∷ 1 ∷ []) (text "laptop") 300 1000).0

minted-IsValid : IsValid minted
minted-IsValid =
    mint_with_ttl-IsValid default (0xab ∷ 1 ∷ []) (text "laptop") 300 1000
      (record { one_each = tt })

claim_once_example :
    ((claim minted (text "ab01") 1100).1 ≡ claimable minted (text "ab01") 1100)
    × (claimable (claim minted (text "ab01") 1100).0 (text "ab01") 1200 ≡ (
        if text_eq (text "ab01") (text "ab01") then none else claimable minted (text "ab01") 1200))
claim_once_example =
    claim_once minted (text "ab01") (text "ab01") 1100 1200 minted-IsValid (omega arith)
