-- ===== src/Idp/Assertion/Replay.antt =====
-- Each assertion is accepted once: `consumePrivateKeyJWTJTI` of idp-auth-server/private_key_jwt.go.
use oidc_oauth2_idp.Prelude.{
  Bool, List, Option-cases, String, [], ap, arith, eq_iff, false, inl, inr, some, true, ℕ, ◌+◌, ◌∷◌,
  ◌≡◌, ◌≤◌,
}
use oidc_oauth2_idp.Prelude.Dict.{Dict, lookup, lookup-insert, lookup-insert_self}
use oidc_oauth2_idp.Idp.Assertion.{consume_jti, jti_key, private_key_jwt_leeway, prune}

-- A record whose time has not passed survives pruning.
lookup-prune :
    (now : ℕ) (k : String) (expires : ℕ) (jtis : Dict ℕ)
    → lookup k jtis ≡ some expires
    → now ≤ expires
    → lookup k (prune now jtis) ≡ some expires
unfolding lookup prune
lookup-prune now k expires [] e h = e
lookup-prune now k expires ((j, t) ∷ rest) e h = ground (arith, lookup-prune now k expires rest)

-- Two requests under way at once are served in some order; what a refusal stores keeps live records.
consume_jti_refused :
    (client_id jti : String) (expiry now seen : ℕ) (jtis : Dict ℕ)
    → lookup (jti_key client_id jti) jtis ≡ some seen
    → now ≤ seen
    → consume_jti client_id jti expiry now jtis ≡ (prune now jtis, false)
unfolding consume_jti
consume_jti_refused client_id jti expiry now seen jtis e h =
    ground (arith, lookup-prune now (jti_key client_id jti) seen jtis)

consume_jti-stored :
    (client_id jti : String) (expiry now : ℕ) (jtis : Dict ℕ)
    → (consume_jti client_id jti expiry now jtis).1 ≡ true
    → lookup (jti_key client_id jti) (consume_jti client_id jti expiry now jtis).0
      ≡ some (expiry + private_key_jwt_leeway)
unfolding consume_jti
consume_jti-stored client_id jti expiry now jtis e =
    elim (Option-cases (lookup (jti_key client_id jti) (prune now jtis))) [
      | inr (seen, q) ↦ absurd (ground arith)
      | inl q ↦
          rw (q, consume_jti)
            (lookup-insert_self (jti_key client_id jti) (expiry + private_key_jwt_leeway)
              (prune now jtis))
    ]

-- What consuming any other jti does to a live record: nothing.
consume_jti-kept :
    (client_id jti : String) (expiry now : ℕ) (jtis : Dict ℕ) (k : String) (seen : ℕ)
    → lookup k jtis ≡ some seen
    → now ≤ seen
    → lookup k (consume_jti client_id jti expiry now jtis).0 ≡ some seen
unfolding consume_jti
consume_jti-kept client_id jti expiry now jtis k seen e h =
    elim (Option-cases (lookup (jti_key client_id jti) (prune now jtis))) [
      | inr (t, q) ↦ rw (q, consume_jti) (lookup-prune now k seen jtis e h)
      | inl q ↦
          rw (q, consume_jti)
            (ground (
              arith,
              lookup-insert (jti_key client_id jti) k (expiry + private_key_jwt_leeway)
                  (prune now jtis),
              lookup-prune now k seen jtis e h,
              eq_iff (jti_key client_id jti) k,
            ))
    ]

-- A use of an assertion's jti: the client, the jti, the expiry and the time.
abbrev pub Use : Type 0
Use = String × String × ℕ × ℕ

-- The records after a sequence of uses.
abbrev pub after_uses : List Use → Dict ℕ → Dict ℕ
after_uses [] jtis = jtis
after_uses ((client_id, jti, expiry, now) ∷ uses) jtis =
    after_uses uses (consume_jti client_id jti expiry now jtis).0

-- All uses happen by some time.
abbrev pub Until : ℕ → List Use → Type 0
Until later [] = Unit
Until later ((client_id, jti, expiry, now) ∷ uses) = (now ≤ later) × Until later uses

after_uses-kept :
    (uses : List Use) (jtis : Dict ℕ) (k : String) (seen later : ℕ)
    → lookup k jtis ≡ some seen
    → Until later uses
    → later ≤ seen
    → lookup k (after_uses uses jtis) ≡ some seen
after_uses-kept [] jtis k seen later e u h = e
after_uses-kept ((client_id, jti, expiry, now) ∷ uses) jtis k seen later e u h =
    after_uses-kept uses (consume_jti client_id jti expiry now jtis).0 k seen later
      (consume_jti-kept client_id jti expiry now jtis k seen e (ground (arith, u.0, h))) u.1 h

-- Once a client's jti has been accepted it is refused at any time up to the assertion's expiry and the
-- leeway, whatever assertions of whichever clients are checked in between, none of them at a later time.
pub consume_jti_once :
    (client_id jti : String) (expiry now : ℕ) (jtis : Dict ℕ) (uses : List Use)
    (later_expiry later : ℕ)
    → (consume_jti client_id jti expiry now jtis).1 ≡ true
    → Until later uses
    → later ≤ expiry + private_key_jwt_leeway
    → (consume_jti client_id jti later_expiry later
        (after_uses uses (consume_jti client_id jti expiry now jtis).0)).1
      ≡ false
consume_jti_once client_id jti expiry now jtis uses later_expiry later e u h =
    ap (λ (r : Dict ℕ × Bool). r.1)
      (consume_jti_refused client_id jti later_expiry later (expiry + private_key_jwt_leeway) _
        (after_uses-kept uses (consume_jti client_id jti expiry now jtis).0 (jti_key client_id jti)
          (expiry + private_key_jwt_leeway) later
          (consume_jti-stored client_id jti expiry now jtis e) u h)
        h)
