-- ===== src/Checkout.antt =====
-- src/swe_team/providers/checkout/{base,memory}.py: the in-memory provider of ticket locks. Each
-- method holds `_lock` for its body and is one function of the state. `uuid4()` and each reading
-- of the clock that the method makes are arguments; times count microseconds, and the clock is
-- not before `locked_at` when a lock is released.
pub mod Exclusion
pub mod Cleanup
pub mod Counters
pub mod Table
pub mod Leases
use swe_squad.Prelude.{
  ℕ, ◌+◌, ◌-◌, ◌*◌, String, Bool, true, false, not, ◌&&◌, Option, none, some, List, [], ◌∷◌, ◌++◌,
  ltb, ◌==◌, str_eq, if◌then◌else◌, Dict, lookup, insert, erase, length,
}

pub record CheckoutLock : Type 0 where
  pub run_id : String
  pub locked_by : String
  pub locked_at : ℕ
  pub expires_at : ℕ

pub record Provider : Type 0 where
  pub locks : Dict CheckoutLock
  pub total : ℕ
  pub success : ℕ
  pub failed : ℕ
  pub expired : ℕ
  pub durations : List ℕ

unfoldable pub new : Provider
new = record { locks = []; total = 0; success = 0; failed = 0; expired = 0; durations = [] }

abbrev pub minutes : ℕ → ℕ
minutes n = n * 60_000_000

unfoldable pub is_expired : ℕ → CheckoutLock → Bool
is_expired now l = ltb l.expires_at now

-- `existing is not None and not existing.is_expired()`
unfoldable pub is_live : ℕ → Option CheckoutLock → Bool
is_live now none = false
is_live now (some l) = not (is_expired now l)

-- `now` is read before the lock is taken, and `check` in `existing.is_expired()`.
unfoldable pub try_checkout :
    (now check : ℕ) (run_id ticket_id team_id : String) (lock_minutes : ℕ)
    → Provider
    → Option String × Provider
try_checkout now check run_id ticket_id team_id lock_minutes p =
    if is_live check (lookup ticket_id p.locks)
    then (none, record p { total = p.total + 1; failed = p.failed + 1 })
    else (
      some run_id,
      record p {
        total = p.total + 1;
        locks =
            insert ticket_id
              (record {
                run_id = run_id;
                locked_by = team_id;
                locked_at = now;
                expires_at = now + minutes lock_minutes;
              })
              p.locks;
        success = p.success + 1;
      },
    )

-- The lock of the ticket, if the caller's run holds it.
unfoldable pub held_by : String → String → Provider → Option CheckoutLock
held_by ticket_id run_id p = elim (lookup ticket_id p.locks) [
  | none ↦ none
  | some l ↦ if str_eq l.run_id run_id then some l else none
]

unfoldable pub release : (now : ℕ) (ticket_id run_id : String) → Provider → Bool × Provider
release now ticket_id run_id p = elim (held_by ticket_id run_id p) [
  | none ↦ (false, p)
  | some l ↦ (
    true,
    record p {
      durations = p.durations ++ (now - l.locked_at) ∷ [];
      locks = erase ticket_id p.locks;
    },
  )
]

unfoldable pub heartbeat :
    (now : ℕ) (ticket_id run_id : String) (extend_minutes : ℕ) → Provider → Bool × Provider
heartbeat now ticket_id run_id extend_minutes p = elim (held_by ticket_id run_id p) [
  | none ↦ (false, p)
  | some l ↦ (
    true,
    record p {
      locks = insert ticket_id (record l { expires_at = now + minutes extend_minutes }) p.locks;
    },
  )
]

unfoldable pub is_locked : ℕ → String → Provider → Bool
is_locked now ticket_id p = is_live now (lookup ticket_id p.locks)

-- `None` for no lock and for one that has expired.
unfoldable pub unexpired : ℕ → Option CheckoutLock → Option CheckoutLock
unexpired now none = none
unexpired now (some l) = if is_expired now l then none else some l

unfoldable pub get_lock_info : ℕ → String → Provider → Option CheckoutLock
get_lock_info now ticket_id p = unexpired now (lookup ticket_id p.locks)

-- `[tid for tid, lock in self._locks.items() if lock.is_expired()]`; `now` is the clock as it is
-- read for each ticket.
unfoldable pub expired_ids : (String → ℕ) → Dict CheckoutLock → List String
expired_ids now [] = []
expired_ids now ((k, l) ∷ d) =
    let rest = expired_ids now d in if is_expired (now k) l then k ∷ rest else rest

unfoldable pub erase_all : List String → Dict CheckoutLock → Dict CheckoutLock
erase_all [] d = d
erase_all (k ∷ ks) d = erase_all ks (erase k d)

unfoldable pub cleanup_expired : (String → ℕ) → Provider → ℕ × Provider
cleanup_expired now p =
    let ids = expired_ids now p.locks in
    (length ids, record p { locks = erase_all ids p.locks; expired = p.expired + length ids })

unfoldable pub force_release : String → Provider → Bool × Provider
force_release ticket_id p = elim (lookup ticket_id p.locks) [
  | none ↦ (false, p)
  | some l ↦ (true, record p { locks = erase ticket_id p.locks })
]

-- A quotient, as numerator and denominator.
pub record Ratio : Type 0 where
  pub num : ℕ
  pub den : ℕ

unfoldable pub sum : List ℕ → ℕ
sum [] = 0
sum (x ∷ xs) = x + sum xs

pub record CheckoutMetrics : Type 0 where
  pub total_checkouts : ℕ
  pub successful_checkouts : ℕ
  pub failed_checkouts : ℕ
  pub expired_locks : ℕ
  pub avg_lock_duration : Ratio

abbrev zero_ratio : Ratio
zero_ratio = record { num = 0; den = 1 }

abbrev average : List ℕ → Ratio
average [] = zero_ratio
average (x ∷ xs) = record { num = sum (x ∷ xs); den = length (x ∷ xs) }

unfoldable pub metrics : Provider → CheckoutMetrics
metrics p = record {
  total_checkouts = p.total;
  successful_checkouts = p.success;
  failed_checkouts = p.failed;
  expired_locks = p.expired;
  avg_lock_duration = average p.durations;
}

unfoldable pub contention_rate : CheckoutMetrics → Ratio
contention_rate m =
    if m.total_checkouts == 0
    then zero_ratio
    else record { num = m.failed_checkouts; den = m.total_checkouts }

-- A call, with the clock readings and the fresh id that it makes.
pub data Call : Type 0 where
  try_call : (now check : ℕ) (run_id ticket_id team_id : String) (lock_minutes : ℕ) → Call
  release_call : (now : ℕ) (ticket_id run_id : String) → Call
  heartbeat_call : (now : ℕ) (ticket_id run_id : String) (extend_minutes : ℕ) → Call
  cleanup_call : (now : String → ℕ) → Call
  force_call : (ticket_id : String) → Call

unfoldable pub perform : Call → Provider → Provider
perform (try_call now check r k team m) p = (try_checkout now check r k team m p).1
perform (release_call now k r) p = (release now k r p).1
perform (heartbeat_call now k r m) p = (heartbeat now k r m p).1
perform (cleanup_call now) p = (cleanup_expired now p).1
perform (force_call k) p = (force_release k p).1

unfoldable pub perform_all : List Call → Provider → Provider
perform_all [] p = p
perform_all (c ∷ cs) p = perform_all cs (perform c p)
