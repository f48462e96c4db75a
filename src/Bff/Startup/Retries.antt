-- ===== src/Bff/Startup/Retries.antt =====
-- The attempts to reach the provider come to an end.
use oidc_oauth2_idp.Prelude.{
  Bool-cases, Option, String, arith, if◌then◌else◌, inl, inr, ltb, none, refl, some, subst, suc,
  true, zero, ℕ, ◌*◌, ◌+◌, ◌-◌, ◌<◌, ◌=ℕ◌, ◌∙◌, ◌≡◌, ◌≤◌, ◌⊎◌,
}
use oidc_oauth2_idp.Bff.Startup.{
  Retried, available, max_attempts, retry_delay, retry_from, unavailable, with_retry,
}

module _ {A : Type 0} (attempts : ℕ → A ⊎ String) where
  -- The attempts after the first `done` ones, up to one of them, fail.
  abbrev pub AllFail : ℕ → ℕ → Type 0
  AllFail done last = (n : ℕ) → done < n → n ≤ last → (error : String) × (attempts n ≡ inr error)

  -- The error of the last attempt, or the one before if there was no attempt.
  abbrev IsLastError : ℕ → ℕ → Option String → Option String → Type 0
  IsLastError left done before error =
      ((left ≡ 0) × (error ≡ before))
      ⊎ ((given : String) × (error ≡ some given) × (attempts (done + left) ≡ inr given))

  -- What the loop returns with so many attempts left after the first `done` ones.
  abbrev pub IsOutcome : ℕ → ℕ → Option String → ℕ → Retried A → Type 0
  IsOutcome left done before slept (available result n waited) =
      (done < n)
      × (n ≤ done + left)
      × (attempts n ≡ inl result)
      × AllFail done (n - 1)
      × (waited ≡ slept + (n - suc done) * retry_delay)
  IsOutcome left done before slept (unavailable error n waited) =
      (n ≡ done + left)
      × AllFail done (done + left)
      × (waited ≡ slept + (left - 1) * retry_delay)
      × IsLastError left done before error

  the_first : (n m : ℕ) → (n =ℕ m) ≡ true → m ≡ n
  the_first n m t = ground arith

  AllFail-suc :
      (done last : ℕ) (error : String)
      → attempts (suc done) ≡ inr error
      → AllFail (suc done) last
      → AllFail done last
  AllFail-suc done last error e h n below above = elim (Bool-cases (n =ℕ suc done)) [
    | inl t ↦ (error, subst (λ m. attempts m ≡ inr error) (the_first n (suc done) t) e)
    | inr t ↦ h n (ground arith) above
  ]

  at_once : (left done : ℕ) → left ≡ 0 → suc done ≡ done + suc left
  at_once left done none_left = ground arith

  none_between : (done last n : ℕ) → last ≤ done → done < n → n ≤ last → 0 ≡ suc n
  none_between done last n h a b = ground arith

  AllFail-none : (done last : ℕ) → last ≤ done → AllFail done last
  AllFail-none done last h n a b = cc (none_between done last n h a b)

  Sum-cases : (r : A ⊎ String) → ((a : A) × (r ≡ inl a)) ⊎ ((error : String) × (r ≡ inr error))
  Sum-cases (inl a) = inl (a, refl)
  Sum-cases (inr error) = inr (error, refl)

  -- One more failed attempt at the front.
  after_failure :
      (left done : ℕ) (error : String) (before : Option String) (slept : ℕ) (r : Retried A)
      → attempts (suc done) ≡ inr error
      → IsOutcome left (suc done) (some error) (if ltb 0 left then slept + retry_delay else slept) r
      → IsOutcome (suc left) done before slept r
  after_failure left done error before slept (available result n waited) e (a, b, c, d, f) =
      (ground arith, ground arith, c, AllFail-suc done (n - 1) error e d, ground (arith, f))
  after_failure left done error before slept (unavailable last n waited) e (a, b, c, d) =
      let same : suc done + left ≡ done + suc left = ground arith in
      (
        a ∙ same,
        AllFail-suc done (done + suc left) error e (subst (AllFail (suc done)) same b),
        ground (arith, c),
        inr (last_given same d),
      )
    where
      last_given :
          suc done + left ≡ done + suc left
          → IsLastError left (suc done) (some error) last
          → (given : String) × (last ≡ some given) × (attempts (done + suc left) ≡ inr given)
      last_given same (inl (none_left, q)) =
          (error, q, subst (λ m. attempts m ≡ inr error) (at_once left done none_left) e)
      last_given same (inr (given, q, failed)) =
          (given, q, subst (λ m. attempts m ≡ inr given) same failed)

  retry_from-IsOutcome :
      (left done : ℕ) (before : Option String) (slept : ℕ)
      → IsOutcome left done before slept (retry_from attempts left done before slept)
  unfolding retry_from
  retry_from-IsOutcome zero done before slept =
      (ground arith, AllFail-none done (done + 0) (ground arith), ground arith, inl (refl, refl))
  retry_from-IsOutcome (suc left) done before slept = elim (Sum-cases (attempts (suc done))) [
    | inl (result, q) ↦
        rw (q, retry_from)
          (
            ground arith,
            ground arith,
            q,
            AllFail-none done (suc done - 1) (ground arith),
            ground arith,
          )
    | inr (error, q) ↦
        rw (q, retry_from)
          (after_failure left done error before slept _ q (
            retry_from-IsOutcome left (suc done) (some error)
              (if ltb 0 left then slept + retry_delay else slept)))
  ]

  -- Connecting to the provider ends after 30 attempts at most: with the first one that succeeds, or, if all 30
  -- fail, with the error of the last. In between two attempts there are two seconds of sleep, and none after
  -- the last.
  pub with_retry-IsOutcome : IsOutcome max_attempts 0 none 0 (with_retry attempts)
  unfolding with_retry
  with_retry-IsOutcome = retry_from-IsOutcome max_attempts 0 none 0
