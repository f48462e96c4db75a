-- ===== src/Idp/Assertion/Keys.antt =====
-- Which keys may verify an assertion: `verificationKeys` of idp-auth-server/private_key_jwt.go.
use oidc_oauth2_idp.Prelude.{
  Bool, Bool-cases, List, String, [], ap, arith, eq_iff, if◌then◌else◌, inl, inr, none, refl, some,
  subst, text_cases, true, ◌==◌, ◌↔◌, ◌∙◌, ◌∷◌, ◌≡◌, ◌≢◌, ◌⊎◌,
}
use oidc_oauth2_idp.Idp.State.{Jwk, KeyKind, ec_key, other_key, rsa_key, symmetric_key}
use oidc_oauth2_idp.Idp.Assertion.{keys_such_that, usable_key, usable_kind, verification_keys}

-- A key that is one of a list.
abbrev pub IsIn : Jwk → List Jwk → Type 0
IsIn key [] = ⊥
IsIn key (k ∷ ks) = (key ≡ k) ⊎ IsIn key ks

keys_such_that_iff :
    (p : Jwk → Bool) (keys : List Jwk) (key : Jwk)
    → IsIn key (keys_such_that p keys) ↔ (IsIn key keys × (p key ≡ true))
unfolding keys_such_that
keys_such_that_iff p [] key = (λ h. absurd h, λ h. absurd h.0)
keys_such_that_iff p (k ∷ ks) key = elim (Bool-cases (p k)) [
  | inl t ↦ (
    rw (t, keys_such_that)
        (λ h. elim h [
          | inl e ↦ (inl e, ap p e ∙ t)
          | inr i ↦ let (j, q) = (keys_such_that_iff p ks key).0 i in (inr j, q)
        ]),
    rw (t, keys_such_that)
        (λ h. elim h.0 [ inl e ↦ inl e | inr i ↦ inr ((keys_such_that_iff p ks key).1 (i, h.1)) ]),
  )
  | inr t ↦ (
    rw (t, keys_such_that) (λ h. let (j, q) = (keys_such_that_iff p ks key).0 h in (inr j, q)),
    rw (t, keys_such_that)
        (λ h. elim h.0 [
          | inl e ↦ absurd (ground (arith, ap p e))
          | inr i ↦ (keys_such_that_iff p ks key).1 (i, h.1)
        ]),
  )
]

-- What the header of an assertion asks of a key: its kid where there is one, a use that is absent or
-- "sig", an algorithm that is absent or the header's, and an asymmetric kind.
abbrev pub Fits : String → String → Jwk → Type 0
Fits kid alg key =
    ((kid ≡ "") ⊎ (key.kid ≡ kid))
    × ((key.use_for ≡ "") ⊎ (key.use_for ≡ "sig"))
    × ((key.algorithm ≡ "") ⊎ (key.algorithm ≡ alg))
    × ((key.kind ≡ rsa_key) ⊎ (key.kind ≡ ec_key))

usable_kind_iff : (k : KeyKind) → (usable_kind k ≡ true) ↔ ((k ≡ rsa_key) ⊎ (k ≡ ec_key))
usable_kind_iff rsa_key = (λ _. inl refl, λ _. refl)
usable_kind_iff ec_key = (λ _. inr refl, λ _. refl)
usable_kind_iff symmetric_key = ground arith
usable_kind_iff other_key = ground arith

Fits-iff :
    (kid alg : String) (key : Jwk)
    → ((kid ≡ "") ⊎ (key.kid ≡ kid)) × (usable_key alg key ≡ true) ↔ Fits kid alg key
unfolding usable_key
Fits-iff kid alg key = ground (
  arith,
  usable_kind_iff key.kind,
  eq_iff key.use_for "",
  eq_iff key.use_for "sig",
  eq_iff key.algorithm "",
  eq_iff key.algorithm alg,
)

candidates_iff :
    (keys : List Jwk) (kid : String) (key : Jwk)
    → IsIn key (if kid == "" then keys else keys_such_that (λ k. k.kid == kid) keys)
      ↔ (IsIn key keys × ((kid ≡ "") ⊎ (key.kid ≡ kid)))
candidates_iff keys kid key = elim (text_cases kid "") [
  | inl (e, t) ↦ rw t (λ h. (h, inl e), λ h. h.0)
  | inr (n, t) ↦ rw t (
    λ h.
        let (i, q) = (keys_such_that_iff (λ k. k.kid == kid) keys key).0 h in
        (i, inr ((eq_iff key.kid kid).0 q)),
    λ h.
        (keys_such_that_iff (λ k. k.kid == kid) keys key).1
          (h.0, elim h.1 [ inl e ↦ absurd (n e) | inr q ↦ (eq_iff key.kid kid).1 q ]),
  )
]

-- The keys that the loop takes.
abbrev chosen : List Jwk → String → String → List Jwk
chosen keys kid alg =
    keys_such_that (usable_key alg)
      (if kid == "" then keys else keys_such_that (λ k. k.kid == kid) keys)

chosen_iff :
    (keys : List Jwk) (kid alg : String) (key : Jwk)
    → IsIn key (chosen keys kid alg) ↔ (IsIn key keys × Fits kid alg key)
chosen_iff keys kid alg key = (
  λ h.
      let (i, u) = (keys_such_that_iff (usable_key alg) _ key).0 h in
      let (j, q) = (candidates_iff keys kid key).0 i in (j, (Fits-iff kid alg key).0 (q, u)),
  λ h.
      let (q, u) = (Fits-iff kid alg key).1 h.1 in
      (keys_such_that_iff (usable_key alg) _ key).1 ((candidates_iff keys kid key).1 (h.0, q), u),
)

-- An assertion is verified under exactly those of the client's keys that fit its header: the keys that
-- are returned are those that fit, and an error is returned exactly when none does.
pub verification_keys_lem :
    (keys : List Jwk) (kid alg : String)
    → ((out : List Jwk) × (verification_keys keys kid alg ≡ some out)
        × (out ≢ [])
        × ((key : Jwk) → IsIn key out ↔ (IsIn key keys × Fits kid alg key)))
      ⊎ ((verification_keys keys kid alg ≡ none)
          × ((key : Jwk) → IsIn key keys → ¬ Fits kid alg key))
unfolding verification_keys
verification_keys_lem keys kid alg = of_chosen (chosen keys kid alg) refl
  where
    of_chosen :
        (out : List Jwk)
        → chosen keys kid alg ≡ out
        → ((out : List Jwk) × (verification_keys keys kid alg ≡ some out)
            × (out ≢ [])
            × ((key : Jwk) → IsIn key out ↔ (IsIn key keys × Fits kid alg key)))
          ⊎ ((verification_keys keys kid alg ≡ none)
              × ((key : Jwk) → IsIn key keys → ¬ Fits kid alg key))
    of_chosen [] e = inr (
      rw (e, verification_keys),
      λ key i f. subst (IsIn key) e ((chosen_iff keys kid alg key).1 (i, f)),
    )
    of_chosen (k ∷ ks) e = inl (
      k ∷ ks,
      rw (e, verification_keys),
      λ h. cc,
      λ key.
          subst (λ ks. IsIn key ks ↔ (IsIn key keys × Fits kid alg key)) e
            (chosen_iff keys kid alg key),
    )
