-- ===== src/Rate.antt =====
-- internal/rate/limiter.go: three limiters of golang.org/x/time/rate, which are a parameter.
use bqcubbit.Base.{ℕ, Bool, true, false}

-- A limiter of `events` in so many seconds, and a burst.
pub record Limiter : Type 0 where
  pub events : ℕ
  pub seconds : ℕ
  pub burst : ℕ

pub record Limiters : Type 0 where
  pub bq_read_sessions : Limiter
  pub bq_export_jobs : Limiter
  pub cubbit_uploads : Limiter

unfoldable pub new_limiters : ℕ → ℕ → ℕ → Limiters
new_limiters bq_read_per_hour bq_export_per_hour cubbit_per_min = record {
  bq_read_sessions = record { events = bq_read_per_hour; seconds = 3600; burst = 1 };
  bq_export_jobs = record { events = bq_export_per_hour; seconds = 3600; burst = 1 };
  cubbit_uploads = record { events = cubbit_per_min; seconds = 60; burst = 1 };
}

-- `wait` is `Limiter.Wait` on a context: whether it returns nil, and what it leaves behind, such as
-- the tokens that it took.
module _ {S : Type 0} (wait : Limiter → S → Bool × S) where
  unfoldable pub wait_bq_read : Limiters → S → Bool × S
  wait_bq_read l s = wait l.bq_read_sessions s

  unfoldable pub wait_bq_export : Limiters → S → Bool × S
  wait_bq_export l s = wait l.bq_export_jobs s

  unfoldable pub wait_upload : Limiters → S → Bool × S
  wait_upload l s = wait l.cubbit_uploads s

  -- What follows a wait.
  unfoldable pub wait_next : (S → Bool × S) → Bool × S → Bool × S
  wait_next next (true, s) = next s
  wait_next next (false, s) = (false, s)

  unfoldable pub wait_all : Limiters → S → Bool × S
  unfolding wait_next
  wait_all l s =
      wait_next (λ s1. wait_next (wait l.cubbit_uploads) (wait l.bq_export_jobs s1))
        (wait l.bq_read_sessions s)
