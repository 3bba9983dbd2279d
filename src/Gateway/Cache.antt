-- ===== src/Gateway/Cache.antt =====
-- service.rs, `Gateway::resolve`: the age of the addresses that it gives.
use ig.Base.{
  ℕ, ◌-◌, ◌<◌, ◌≡◌, refl, Option, none, some, List, [], ◌∷◌, arith, if◌then◌else◌, ltb, Bool-cases,
  inl, inr,
}
use ig.Base.Text.{Text, text_eq, text_eq_iff}
use ig.Gateway.{
  Resolved, Answer, find_answer, put_answer, recent, cached, looked_up, reuse, resolve, dns_ttl,
}

-- What the resolver answers at each time: `lookup at name`.
module _ (lookup : ℕ → Text → Option (List Text)) where
  -- The address was the resolver's first answer to the name at that time.
  abbrev pub AnsweredAt : ℕ → Text → Text → Type 0
  AnsweredAt at name addr = (others : List Text) × (lookup at name ≡ some (addr ∷ others))

  -- Every answer that is kept was one.
  pub record IsHonest (resolved : Resolved) : Type 0 where
    pub answered :
        (name : Text) (a : Answer)
        → find_answer name resolved ≡ some a
        → AnsweredAt a.at name a.addr

  -- The address was the resolver's answer less than the term ago.
  abbrev pub IsRecent : Text → ℕ → Text → Type 0
  IsRecent name now addr = (at : ℕ) × ((now - at) < dns_ttl) × AnsweredAt at name addr

  abbrev pub ResolveOutcome : Text → ℕ → Resolved × Option Text → Type 0
  ResolveOutcome name now (resolved, none) =
      IsHonest resolved × ((addr : Text) → ¬ AnsweredAt now name addr)
  ResolveOutcome name now (resolved, some addr) = IsHonest resolved × IsRecent name now addr

  find_answer-put_answer :
      (name other : Text) (a : Answer) (resolved : Resolved)
      → find_answer other (put_answer name a resolved)
        ≡ (if text_eq name other then some a else find_answer other resolved)
  unfolding find_answer put_answer
  find_answer-put_answer name other a [] = refl
  find_answer-put_answer name other a ((n, b) ∷ resolved) = ground (
    arith,
    text_eq_iff n name,
    text_eq_iff n other,
    text_eq_iff name other,
    find_answer-put_answer name other a resolved,
  )

  put_answer-IsHonest :
      (name addr : Text) (now : ℕ) (resolved : Resolved)
      → IsHonest resolved
      → AnsweredAt now name addr
      → IsHonest (put_answer name (record { addr = addr; at = now }) resolved)
  put_answer-IsHonest name addr now resolved h given = record {
    answered = λ other a e. elim (Bool-cases (text_eq name other)) [
      | inl same ↦
          let here : record { addr = addr; at = now } ≡ a = ground (
            arith,
            find_answer-put_answer name other (record { addr = addr; at = now }) resolved,
          ) in
          rw (← here, ← (text_eq_iff name other).0 same) given
      | inr ne ↦ h.answered other a (
          ground
            (arith, find_answer-put_answer name other (record { addr = addr; at = now }) resolved))
    ];
  }

  looked_up-Outcome :
      (name : Text) (now : ℕ) (o : Option (List Text)) (resolved : Resolved)
      → lookup now name ≡ o
      → IsHonest resolved
      → ResolveOutcome name now (looked_up name now o resolved)
  unfolding looked_up
  looked_up-Outcome name now none resolved e h = (h, λ addr (others, f). cc)
  looked_up-Outcome name now (some []) resolved e h = (h, λ addr (others, f). cc)
  looked_up-Outcome name now (some (addr ∷ others)) resolved e h =
      (put_answer-IsHonest name addr now resolved h (others, e), (now, omega arith, (others, e)))

  reuse-Outcome :
      (name : Text) (now : ℕ) (o : Option Answer) (resolved : Resolved)
      → find_answer name resolved ≡ o
      → IsHonest resolved
      → ResolveOutcome name now
          (reuse (recent now o) resolved (looked_up name now (lookup now name) resolved))
  unfolding reuse recent
  reuse-Outcome name now none resolved e h = looked_up-Outcome name now _ resolved refl h
  reuse-Outcome name now (some a) resolved e h = elim (Bool-cases (ltb (now - a.at) dns_ttl)) [
    | inl young ↦ rw young (h, (a.at, ground arith, h.answered name a e))
    | inr old ↦ rw old (looked_up-Outcome name now _ resolved refl h)
  ]

  -- A name resolves only to an address that the resolver gave for it first in its answer, less than
  -- the term of five seconds ago; where no address comes back, the resolver has none now. What is
  -- kept stays what the resolver answered.
  pub resolve-Outcome :
      (name : Text) (now : ℕ) (resolved : Resolved)
      → IsHonest resolved
      → ResolveOutcome name now (resolve (lookup now) name now resolved)
  unfolding resolve cached
  resolve-Outcome name now resolved h =
      reuse-Outcome name now (find_answer name resolved) resolved refl h
