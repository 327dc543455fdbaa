-- ===== src/Tests/Locks.antt =====
-- A ticket that one run has checked out, beside a ticket whose lock has expired.
use swe_squad.Prelude.{
  ◌≡◌, refl, true, none, some, List, [], ◌∷◌, All, arith, lookup, HasUniqueKeys, str_eq, eq_iff,
}
use swe_squad.Checkout.{
  CheckoutLock, Provider, new, try_checkout, is_locked, Call, try_call, release_call, cleanup_call,
  perform_all,
}
use swe_squad.Checkout.Exclusion.{IsForeign, checkout_excludes}
use swe_squad.Checkout.Leases.{view, answers, perform_all_refines}
use swe_squad.Checkout.Table.{lease_run, AreAnswers}

abbrev lock_a : CheckoutLock
lock_a = record { run_id = "r1"; locked_by = "red"; locked_at = 0; expires_at = 900_000_000 }

abbrev lock_b : CheckoutLock
lock_b = record { run_id = "r0"; locked_by = "blue"; locked_at = 0; expires_at = 60_000_000 }

abbrev two_locks : Provider
two_locks = record {
  locks = ("a", lock_a) ∷ ("b", lock_b) ∷ [];
  total = 2;
  success = 2;
  failed = 0;
  expired = 0;
  durations = [];
}

two_unique : HasUniqueKeys two_locks.locks
unfolding lookup
two_unique = (refl, (refl, tt))

a_locked : lookup "a" two_locks.locks ≡ some lock_a
unfolding lookup
a_locked = refl

-- Calls of other runs while the lock of "a" lasts.
abbrev others : List Call
others =
    try_call 100_000_000 100_000_001 "r2" "a" "blue" 15
    ∷ release_call 110_000_000 "a" "r2"
    ∷ cleanup_call (λ k. 120_000_000)
    ∷ try_call 130_000_000 130_000_001 "r3" "b" "blue" 15
    ∷ []

others-IsForeign : All (IsForeign "a" lock_a) others
others-IsForeign = (
  omega arith,
  (
    λ e. let x : str_eq "r2" "r1" ≡ true = (eq_iff "r2" "r1").1 e in absurd (cc),
    (omega arith, (omega arith, tt)),
  ),
)

checkout_excludes_example :
    (lookup "a" (perform_all others two_locks).locks ≡ some lock_a)
    × (is_locked 200_000_000 "a" (perform_all others two_locks) ≡ true)
    × ((try_checkout 200_000_000 200_000_000 "r4" "a" "blue" 15 (perform_all others two_locks)).0
        ≡ none)
checkout_excludes_example =
    checkout_excludes "a" lock_a others two_locks 200_000_000 200_000_000 "r4" "blue" 15 two_unique
      a_locked others-IsForeign (omega arith)

perform_all_refines_example :
    (view (perform_all others new) ≡ lease_run others (λ j. none))
    × AreAnswers (λ j. none) others (answers others new)
perform_all_refines_example = perform_all_refines others
