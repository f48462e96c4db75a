-- ===== src/Bff/StateClaims/History.antt =====
-- Which claims are granted, by the history of the claims.
use oidc_oauth2_idp.Prelude.{
  Bool, Bool-cases, List, Option, Option-cases, String, [], ap, arith, false, if◌then◌else◌, inl,
  inr, leb, ltb, none, refl, some, sym, text_cases, true, ℕ, ◌&&◌, ◌+◌, ◌==◌, ◌∙◌, ◌∷◌, ◌≡◌, ◌≢◌,
  ◌≤◌, ◌⊎◌,
}
use oidc_oauth2_idp.Prelude.Dict.{lookup, lookup-insert_ne, lookup-insert_self}
use oidc_oauth2_idp.Bff.StateClaims.{StateClaims, claim, claim_in, cleaned, new_state_claims}
use oidc_oauth2_idp.Bff.StateClaims.Once.{after_claims, claim-ttl, cleaned_frame, lookup-cleaned}
use oidc_oauth2_idp.Bff.StateClaims.Distinct.{
  HasDistinctStates, claim-HasDistinctStates, lookup-cleaned_back,
}

-- Whether a state is free, by the time of the last claim of it that was granted.
abbrev pub is_free : ℕ → ℕ → Option ℕ → Bool
is_free ttl now none = true
is_free ttl now (some claimed) = leb (claimed + ttl) now

-- What the claims mean for one state, without a table and without a cleanup: the time of the last claim of it
-- that is to be granted.
abbrev pub last_granted : ℕ → String → List (String × ℕ) → Option ℕ → Option ℕ
last_granted ttl state [] last = last
last_granted ttl state ((other, now) ∷ rest) last =
    last_granted ttl state rest (if other == state && is_free ttl now last then some now else last)

-- Claims in the order of their times.
abbrev pub InOrder : ℕ → List (String × ℕ) → ℕ → Type 0
InOrder start [] later = start ≤ later
InOrder start ((state, now) ∷ rest) later = (start ≤ now) × InOrder now rest later

-- The table knows the last claim of a state, or has dropped it after its lifetime.
abbrev Tracks : String → Option ℕ → ℕ → StateClaims → Type 0
Tracks state last now c =
    (lookup state c.claimed_at ≡ last)
    ⊎ ((lookup state c.claimed_at ≡ none) × (is_free c.ttl now last ≡ true))

is_free_later :
    (ttl now later : ℕ) (last : Option ℕ)
    → now ≤ later
    → is_free ttl now last ≡ true
    → is_free ttl later last ≡ true
is_free_later ttl now later none h e = refl
is_free_later ttl now later (some claimed) h e = ground arith

lookup-cleaned-none :
    (now : ℕ) (state : String) (c : StateClaims)
    → HasDistinctStates c
    → lookup state c.claimed_at ≡ none
    → lookup state (cleaned now c).claimed_at ≡ none
lookup-cleaned-none now state c d e =
    elim (Option-cases (lookup state (cleaned now c).claimed_at)) [
      | inl q ↦ q
      | inr (claimed, q) ↦ cc (e, lookup-cleaned_back now state claimed c d q)
    ]

cleaned-Tracks :
    (state : String) (last : Option ℕ) (now later : ℕ) (c : StateClaims)
    → HasDistinctStates c
    → now ≤ later
    → Tracks state last now c
    → Tracks state last later (cleaned later c)
cleaned-Tracks state last now later c d h (inr (e, free)) = inr (
  lookup-cleaned-none later state c d e,
  rw (cleaned_frame later c) (is_free_later c.ttl now later last h free),
)
cleaned-Tracks state none now later c d h (inl e) = inl (lookup-cleaned-none later state c d e)
cleaned-Tracks state (some claimed) now later c d h (inl e) =
    elim (Bool-cases (leb (claimed + c.ttl) later)) [
      | inr live ↦ inl (lookup-cleaned later state claimed c e (ground arith))
      | inl old ↦ elim (Option-cases (lookup state (cleaned later c).claimed_at)) [
        | inl q ↦ inr (q, rw (cleaned_frame later c) old)
        | inr (kept, q) ↦ inl (q ∙ sym (lookup-cleaned_back later state kept c d q) ∙ e)
      ]
    ]

-- A claim, by what is known of its state after the cleanup.
claim_by :
    (state : String) (last : Option ℕ) (now : ℕ) (c : StateClaims)
    → Tracks state last now (cleaned now c)
    → ((claim state now c).1 ≡ is_free c.ttl now last)
      × ((claim state now c).0
          ≡ (if is_free c.ttl now last then claim_in state now (cleaned now c) else cleaned now c))
unfolding claim
claim_by state last now c (inr (e, free)) =
    let f : is_free c.ttl now last ≡ true = rw (sym (cleaned_frame now c)) free in
    rw (e, claim, f) (refl, refl)
claim_by state none now c (inl e) = rw (e, claim) (refl, refl)
claim_by state (some claimed) now c (inl e) = elim (Bool-cases (ltb now (claimed + c.ttl))) [
  | inl live ↦
      let f : leb (claimed + c.ttl) now ≡ false = ground arith in
      rw (e, claim, cleaned_frame now c, live, f) (refl, refl)
  | inr old ↦
      let f : leb (claimed + c.ttl) now ≡ true = ground arith in
      rw (e, claim, cleaned_frame now c, old, f) (refl, refl)
]

claim-other :
    (other state : String) (now : ℕ) (c : StateClaims)
    → other ≢ state
    → lookup state (claim other now c).0.claimed_at ≡ lookup state (cleaned now c).claimed_at
unfolding claim
claim-other other state now c apart =
    ground (arith, lookup-insert_ne other state now (cleaned now c).claimed_at apart)

claim-Tracks :
    (other state : String) (last : Option ℕ) (start now : ℕ) (c : StateClaims)
    → HasDistinctStates c
    → start ≤ now
    → Tracks state last start c
    → Tracks state
        (if other == state && is_free c.ttl now last then some now else last)
        now
        (claim other now c).0
claim-Tracks other state last start now c d h t =
    let kept = cleaned-Tracks state last start now c d h t in
    elim (text_cases other state) [
      | inl (same, e) ↦
          let table = ap (λ k. (claim k now c).0) same ∙ (claim_by state last now c kept).1 in
          elim (Bool-cases (is_free c.ttl now last)) [
            | inl f ↦
                rw (e, f, table, f) (inl (lookup-insert_self state now (cleaned now c).claimed_at))
            | inr f ↦ rw (e, f, table, f) kept
          ]
      | inr (apart, e) ↦
          let table = claim-other other state now c apart in
          let lifetime = claim-ttl other now c ∙ sym (cleaned_frame now c) in
          rw (e, table, lifetime) kept
    ]

after_claims-Tracks :
    (claims : List (String × ℕ)) (state : String) (last : Option ℕ) (start later : ℕ)
    (c : StateClaims)
    → HasDistinctStates c
    → InOrder start claims later
    → Tracks state last start c
    → (claim state later (after_claims claims c)).1
      ≡ is_free c.ttl later (last_granted c.ttl state claims last)
after_claims-Tracks [] state last start later c d h t =
    (claim_by state last later c (cleaned-Tracks state last start later c d h t)).0
after_claims-Tracks ((other, now) ∷ rest) state last start later c d h t =
    let next =
      after_claims-Tracks rest state
        (if other == state && is_free c.ttl now last then some now else last) now later
        (claim other now c).0 (claim-HasDistinctStates other now c d) h.1
        (claim-Tracks other state last start now c d h.0 t) in
    rw (claim-ttl other now c) at next

-- After claims of any states in the order of their times, starting from none, a state can be claimed exactly
-- when it was never claimed or the lifetime of the last claim of it that was granted has passed. That claim is
-- found in the history of the claims alone: the first claim of the state is granted, and then each that
-- comes when the lifetime of the one granted before has passed.
pub claim-after_claims :
    (claims : List (String × ℕ)) (ttl start now : ℕ) (state : String)
    → InOrder start claims now
    → (claim state now (after_claims claims (new_state_claims ttl start))).1
      ≡ is_free ttl now (last_granted ttl state claims none)
unfolding lookup
claim-after_claims claims ttl start now state h =
    after_claims-Tracks claims state none start now (new_state_claims ttl start) tt h (inl refl)
