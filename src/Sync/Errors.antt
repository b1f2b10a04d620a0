-- ===== src/Sync/Errors.antt =====
-- internal/sync/errors.go: the classes of errors and the circuit breaker. Durations are
-- nanoseconds.
use bqcubbit.Base.{
  ℕ, zero, suc, ◌+◌, ◌*◌, Text, codes, Bool, true, false, ◌||◌, Option, none, some, [], ◌∷◌, ◌≡◌,
  refl, ap, ap₂, ◌∙◌, arith, ltb, leb, ◌==◌, if◌then◌else◌,
}
use bqcubbit.Storage.{has_prefix}

pub data ErrorClass : Type 0 where
  error_unknown error_bq_quota error_bq_auth error_cubbit_unavailable error_transient
        error_permanent :
      ErrorClass

-- strings.Contains
unfoldable pub contains : Text → Text → Bool
contains s [] = true
contains [] (w ∷ ws) = false
contains (c ∷ s) (w ∷ ws) = has_prefix (c ∷ s) (w ∷ ws) || contains s (w ∷ ws)

-- `ClassifyError`, on the message of the error.
unfoldable pub classify_error : Text → ErrorClass
unfolding contains
classify_error msg =
    if contains msg (codes "quota")
    then error_bq_quota
    else if contains msg (codes "unauthenticated") || contains msg (codes "permission")
    then error_bq_auth
    else if contains msg (codes "connection refused") || contains msg (codes "no such host")
    then error_cubbit_unavailable
    else if contains msg (codes "timeout") || contains msg (codes "deadline")
    then error_transient
    else error_unknown

pub record CircuitBreaker : Type 0 where
  pub failures : ℕ
  pub max_failures : ℕ
  pub backoff : ℕ
  pub max_backoff : ℕ

-- time.Second
abbrev pub second : ℕ
second = 1000000000

unfoldable pub new_circuit_breaker : ℕ → ℕ → CircuitBreaker
new_circuit_breaker max_failures max_backoff = record {
  failures = 0;
  max_failures = max_failures;
  backoff = second;
  max_backoff = max_backoff;
}

unfoldable pub record_failure : CircuitBreaker → CircuitBreaker
record_failure cb = record cb {
  failures = cb.failures + 1;
  backoff = if ltb cb.max_backoff (cb.backoff * 2) then cb.max_backoff else cb.backoff * 2;
}

unfoldable pub record_success : CircuitBreaker → CircuitBreaker
record_success cb = record cb { failures = 0; backoff = second }

unfoldable pub is_open : CircuitBreaker → Bool
is_open cb = leb cb.max_failures cb.failures

-- The time that `Wait` waits, `none` where it returns at once.
unfoldable pub wait_time : CircuitBreaker → Option ℕ
unfolding is_open
wait_time cb = if is_open cb then some cb.backoff else none

-- A number of failures in a row.
pub fail_times : ℕ → CircuitBreaker → CircuitBreaker
unfolding record_failure
fail_times zero cb = cb
fail_times (suc k) cb = record_failure (fail_times k cb)

-- 2 to the power of `k`.
abbrev pub doubled : ℕ → ℕ
doubled zero = 1
doubled (suc k) = doubled k * 2

abbrev pub capped : ℕ → ℕ → ℕ
capped max_backoff d = if ltb max_backoff d then max_backoff else d

cap_twice : (m x : ℕ) → capped m (capped m x * 2) ≡ capped m (x * 2)
cap_twice m x = ground arith

backoff_step :
    (k m b : ℕ)
    → b ≡ (if k == 0 then second else capped m (doubled k * second))
    → capped m (b * 2) ≡ capped m (doubled (suc k) * second)
backoff_step zero m b e = ap (capped m) (omega (arith, e))
backoff_step (suc k) m b e =
    let held : b ≡ capped m (doubled k * 2 * second) = ground arith in
    ap (λ (x : ℕ). capped m (x * 2)) held
    ∙ cap_twice m (doubled k * 2 * second)
    ∙ ap (capped m) (omega arith)

fail_times_state :
    (k : ℕ) (cb : CircuitBreaker)
    → ((fail_times k (record_success cb)).failures ≡ k)
      × ((fail_times k (record_success cb)).max_failures ≡ cb.max_failures)
      × ((fail_times k (record_success cb)).max_backoff ≡ cb.max_backoff)
      × ((fail_times k (record_success cb)).backoff
          ≡ (if k == 0 then second else capped cb.max_backoff (doubled k * second)))
unfolding fail_times record_success record_failure
fail_times_state zero cb = (refl, refl, refl, refl)
fail_times_state (suc k) cb =
    let (a, b, c, d) = fail_times_state k cb in
    (
      omega (arith, a),
      b,
      c,
      ap₂ (λ (m x : ℕ). capped m (x * 2)) c d ∙ backoff_step k cb.max_backoff _ refl ∙ ground arith,
    )

-- After a success and then `k` failures the breaker waits exactly when `k` has reached its limit,
-- and then for the second doubled `k` times but no longer than its longest backoff; with no failure
-- it waits a second, if at all.
pub wait_time_exact :
    (k : ℕ) (cb : CircuitBreaker)
    → wait_time (fail_times k (record_success cb)) ≡ (
        if leb cb.max_failures k
        then some (if k == 0 then second else capped cb.max_backoff (doubled k * second))
        else none)
unfolding wait_time is_open
wait_time_exact k cb = let (a, b, c, d) = fail_times_state k cb in rw (a, b, d)
