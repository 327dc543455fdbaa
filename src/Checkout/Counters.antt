-- ===== src/Checkout/Counters.antt =====
-- The counters that `metrics` reports.
use swe_squad.Prelude.{
  ℕ, ◌+◌, ◌-◌, ◌≤◌, String, ◌≡◌, refl, inl, inr, some, List, [], ◌∷◌, length, length-append,
  length-insert, length-erase, arith, Bool-cases, Option-cases, lookup, insert, erase,
  HasUniqueKeys,
}
use swe_squad.Checkout.{
  CheckoutLock, Provider, new, minutes, is_live, try_checkout, release, heartbeat, cleanup_expired,
  force_release, metrics, contention_rate, Call, try_call, release_call, heartbeat_call,
  cleanup_call, force_call, perform, perform_all,
}
use swe_squad.Checkout.Cleanup.{length-cleanup}
use swe_squad.Checkout.Exclusion.{perform-HasUniqueKeys, held_by-cases}

-- Every attempt is counted once, and every lock that stands, was released or was cleaned up came
-- from a checkout that succeeded.
pub record IsBalanced (p : Provider) : Type 0 where
  pub counted : p.total ≡ p.success + p.failed
  pub accounted : length p.locks + length p.durations + p.expired ≤ p.success

try-IsBalanced :
    (now check : ℕ) (r k team : String) (m : ℕ) (p : Provider)
    → IsBalanced p
    → IsBalanced (try_checkout now check r k team m p).1
unfolding try_checkout
try-IsBalanced now check r k team m p b = elim (Bool-cases (is_live check (lookup k p.locks))) [
  | inl y ↦ rw y (record { counted = omega arith; accounted = b.accounted })
  | inr n ↦ rw n (record {
    counted = omega arith;
    accounted = ground (
      arith,
      length-insert k
          (record { run_id = r; locked_by = team; locked_at = now; expires_at = now + minutes m })
          p.locks,
    );
  })
]

length-insert_old :
    (k : String) (v l : CheckoutLock) (p : Provider)
    → lookup k p.locks ≡ some l
    → length (insert k v p.locks) ≡ length p.locks
length-insert_old k v l p at = ground (arith, length-insert k v p.locks)

length-erase_old :
    (k : String) (l : CheckoutLock) (p : Provider)
    → lookup k p.locks ≡ some l
    → length (erase k p.locks) + 1 ≤ length p.locks
length-erase_old k l p at = ground (arith, length-erase k p.locks)

release-IsBalanced :
    (now : ℕ) (k r : String) (p : Provider) → IsBalanced p → IsBalanced (release now k r p).1
unfolding release
release-IsBalanced now k r p b = elim (held_by-cases k r p) [
  | inl n ↦ rw (n, release) b
  | inr (l, e, at, y) ↦
      rw (e, release)
        (record {
          counted = b.counted;
          accounted = omega (
            arith,
            length-erase_old k l p at,
            length-append p.durations ((now - l.locked_at) ∷ []),
            b.accounted,
          );
        })
]

heartbeat-IsBalanced :
    (now : ℕ) (k r : String) (m : ℕ) (p : Provider)
    → IsBalanced p
    → IsBalanced (heartbeat now k r m p).1
unfolding heartbeat
heartbeat-IsBalanced now k r m p b = elim (held_by-cases k r p) [
  | inl n ↦ rw (n, heartbeat) b
  | inr (l, e, at, y) ↦
      rw (e, heartbeat)
        (record {
          counted = b.counted;
          accounted = omega (
            arith,
            length-insert_old k (record l { expires_at = now + minutes m }) l p at,
            b.accounted,
          );
        })
]

force-IsBalanced : (k : String) (p : Provider) → IsBalanced p → IsBalanced (force_release k p).1
unfolding force_release
force-IsBalanced k p b = elim (Option-cases (lookup k p.locks)) [
  | inl n ↦ rw (n, force_release) b
  | inr (l, e) ↦
      rw (e, force_release)
        (record {
          counted = b.counted;
          accounted = omega (arith, length-erase_old k l p e, b.accounted);
        })
]

cleanup-IsBalanced :
    (now : String → ℕ) (p : Provider)
    → HasUniqueKeys p.locks
    → IsBalanced p
    → IsBalanced (cleanup_expired now p).1
unfolding cleanup_expired
cleanup-IsBalanced now p u b = record {
  counted = b.counted;
  accounted = omega (arith, length-cleanup now p u, b.accounted);
}

perform-IsBalanced :
    (c : Call) (p : Provider) → HasUniqueKeys p.locks → IsBalanced p → IsBalanced (perform c p)
unfolding perform
perform-IsBalanced (try_call now check r k team m) p u b = try-IsBalanced now check r k team m p b
perform-IsBalanced (release_call now k r) p u b = release-IsBalanced now k r p b
perform-IsBalanced (heartbeat_call now k r m) p u b = heartbeat-IsBalanced now k r m p b
perform-IsBalanced (cleanup_call now) p u b = cleanup-IsBalanced now p u b
perform-IsBalanced (force_call k) p u b = force-IsBalanced k p b

IsBalanced-from :
    (cs : List Call) (p : Provider)
    → HasUniqueKeys p.locks
    → IsBalanced p
    → IsBalanced (perform_all cs p)
unfolding perform_all
IsBalanced-from [] p u b = b
IsBalanced-from (c ∷ cs) p u b =
    IsBalanced-from cs (perform c p) (perform-HasUniqueKeys c p u) (perform-IsBalanced c p u b)

-- After any calls on a new provider the counters balance.
pub perform_all-IsBalanced : (cs : List Call) → IsBalanced (perform_all cs new)
unfolding new
perform_all-IsBalanced cs =
    IsBalanced-from cs new tt (record { counted = refl; accounted = omega arith })

-- The reported contention rate of a balanced provider is a fraction of at most 1.
pub contention_rate-le_one :
    (cs : List Call)
    → let rate = contention_rate (metrics (perform_all cs new)) in
      (rate.num ≤ rate.den) × (1 ≤ rate.den)
unfolding contention_rate metrics
contention_rate-le_one cs = ground (arith, perform_all-IsBalanced cs)
