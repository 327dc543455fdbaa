-- ===== src/Backoff/Classify.antt =====
-- Which exceptions `execute` retries after.
use swe_squad.Prelude.{◌≡◌, not, ◌&&◌, ◌||◌, arith}
use swe_squad.Backoff.{
  Exn, is_monthly_exhaustion, is_rate_limit_error, is_overloaded_error, is_server_error,
  is_down_error, classify,
}
use swe_squad.Backoff.Loop.{is_transient_kind}

-- `execute` retries exactly after a `RuntimeError` or `OSError` that does not tell of an exhausted
-- monthly quota, and whose text tells of a rate limit, an overload, an outage or a server error.
pub classify_transient :
    (e : Exn)
    → is_transient_kind (classify e) ≡ (
        e.caught
        && (not (is_monthly_exhaustion e)
            && (is_rate_limit_error e
                || (is_overloaded_error e || (is_down_error e || is_server_error e)))))
unfolding classify
classify_transient e = ground arith
