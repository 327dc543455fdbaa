-- ===== src/Checkout/Leases.antt =====
-- The refinement of the table of leases by `InMemoryCheckoutProvider`.
use mathlib.Core.Option
use mathlib.Core.Path.{subst, fun_ext}
use swe_squad.Prelude.{
  ℕ, ◌+◌, String, ◌≡◌, refl, sym, ap, ◌∙◌, inl, inr, Bool, true, false, Option, none, some, is_some,
  In, ◌↔◌, List, [], ◌∷◌, arith, Bool-cases, Option-cases, lookup, insert, erase, lookup-insert,
  lookup-erase, HasUniqueKeys, str_eq, eq_iff, ltb, Dict, if◌then◌else◌,
}
use swe_squad.Checkout.{
  CheckoutLock, Provider, new, minutes, is_expired, is_live, try_checkout, held_by, release,
  heartbeat, unexpired, get_lock_info, expired_ids, cleanup_expired, force_release, Call, try_call,
  release_call, heartbeat_call, cleanup_call, force_call, perform, perform_all,
}
use swe_squad.Checkout.Table.{
  Lease, Table, in_force, is_holder, set, lease_step, has_lapsed, Answer, run, flag, count,
  AreLapsed, IsAnswer, lease_run, AreAnswers, done, next,
}
use swe_squad.Checkout.Cleanup.{
  has_expired, expired_ids-AreDistinct, In-expired_ids, lookup-cleanup,
}
use swe_squad.Checkout.Exclusion.{
  held_by-cases, release-none, release-some, heartbeat-none, heartbeat-some, force_none, force_some,
  perform-HasUniqueKeys,
}

-- What the method of the code returns.
unfoldable pub answer : Call → Provider → Answer
answer (try_call now check r k team m) p = run (try_checkout now check r k team m p).0
answer (release_call now k r) p = flag (release now k r p).0
answer (heartbeat_call now k r m) p = flag (heartbeat now k r m p).0
answer (cleanup_call now) p = count (cleanup_expired now p).0
answer (force_call k) p = flag (force_release k p).0

abbrev lease_of : CheckoutLock → Lease
lease_of l = record { holder = l.run_id; until = l.expires_at }

abbrev pub view : Provider → Table
view p k = Option.map lease_of (lookup k p.locks)

live_in_force :
    (now : ℕ) (o : Option CheckoutLock) → is_live now o ≡ in_force now (Option.map lease_of o)
unfolding is_live is_expired
live_in_force now none = refl
live_in_force now (some l) = refl

held_is_holder : (k r : String) (p : Provider) → is_some (held_by k r p) ≡ is_holder r (view p k)
unfolding held_by
held_is_holder k r p = ground arith

-- `unexpired` shows a lease exactly while it is in force.
unexpired-view :
    (now : ℕ) (o : Option CheckoutLock)
    → Option.map lease_of (unexpired now o)
      ≡ (if in_force now (Option.map lease_of o) then Option.map lease_of o else none)
unfolding unexpired is_expired
unexpired-view now none = refl
unexpired-view now (some l) = elim (Bool-cases (ltb l.expires_at now)) [
  | inl y ↦ rw y refl
  | inr n ↦ rw n refl
]

erased_view :
    (k : String) (p : Provider) (j : String) {d : Dict CheckoutLock}
    → d ≡ erase k p.locks
    → Option.map lease_of (lookup j d) ≡ set k none (view p) j
erased_view k p j e =
    ap (λ d. Option.map lease_of (lookup j d)) e
    ∙ (ap (Option.map lease_of) (lookup-erase k j p.locks) ∙ branch (str_eq k j))
  where
    branch :
        (b : Bool)
        → Option.map lease_of (if b then none else lookup j p.locks)
          ≡ (if b then none else view p j)
    branch true = refl
    branch false = refl

inserted_view :
    (k : String) (l : CheckoutLock) (p : Provider) (j : String) {d : Dict CheckoutLock}
    → d ≡ insert k l p.locks
    → Option.map lease_of (lookup j d) ≡ set k (some (lease_of l)) (view p) j
inserted_view k l p j e =
    ap (λ d. Option.map lease_of (lookup j d)) e
    ∙ (ap (Option.map lease_of) (lookup-insert k j l p.locks) ∙ branch (str_eq k j))
  where
    branch :
        (b : Bool)
        → Option.map lease_of (if b then some l else lookup j p.locks)
          ≡ (if b then some (lease_of l) else view p j)
    branch true = refl
    branch false = refl

try_view :
    (now check : ℕ) (r k team : String) (m : ℕ) (p : Provider) (j : String)
    → (view (try_checkout now check r k team m p).1 j
        ≡ lease_step (try_call now check r k team m) (view p) j)
      × ((try_checkout now check r k team m p).0
          ≡ (if in_force check (view p k) then none else some r))
unfolding try_checkout
try_view now check r k team m p j =
    let same = live_in_force check (lookup k p.locks) in
    elim (Bool-cases (in_force check (view p k))) [
      | inl y ↦ rw (same ∙ y, y) (refl, refl)
      | inr n ↦ rw (same ∙ n, n) (inserted_view k _ p j refl, refl)
    ]

not_holder : (k r : String) (p : Provider) → held_by k r p ≡ none → is_holder r (view p k) ≡ false
not_holder k r p n = sym (held_is_holder k r p) ∙ ap is_some n

is_holder-some :
    (k r : String) (p : Provider) (l : CheckoutLock)
    → held_by k r p ≡ some l
    → is_holder r (view p k) ≡ true
is_holder-some k r p l e = sym (held_is_holder k r p) ∙ ap is_some e

release-view :
    (now : ℕ) (k r : String) (p : Provider) (j : String)
    → (view (release now k r p).1 j ≡ lease_step (release_call now k r) (view p) j)
      × ((release now k r p).0 ≡ is_holder r (view p k))
unfolding release
release-view now k r p j = elim (held_by-cases k r p) [
  | inl n ↦
      rw (not_holder k r p n)
        (ap (λ x. view x.1 j) (release-none now k r p n), ap (λ x. x.0) (release-none now k r p n))
  | inr (l, e, at, y) ↦
      rw (is_holder-some k r p l e)
        (erased_view k p j (release-some now k r p l e), rw (e, release))
]

heartbeat-view :
    (now : ℕ) (k r : String) (m : ℕ) (p : Provider) (j : String)
    → (view (heartbeat now k r m p).1 j ≡ lease_step (heartbeat_call now k r m) (view p) j)
      × ((heartbeat now k r m p).0 ≡ is_holder r (view p k))
unfolding heartbeat
heartbeat-view now k r m p j = elim (held_by-cases k r p) [
  | inl n ↦ rw (not_holder k r p n) (
    ap (λ x. view x.1 j) (heartbeat-none now k r p m n),
    ap (λ x. x.0) (heartbeat-none now k r p m n),
  )
  | inr (l, e, at, y) ↦
      let same : l.run_id ≡ r = (eq_iff l.run_id r).0 y in
      rw (is_holder-some k r p l e) (
        inserted_view k _ p j (heartbeat-some now k r p m l e)
            ∙ ap (λ x. set k (some (record { holder = x; until = now + minutes m })) (view p) j)
                same,
        rw (e, heartbeat),
      )
]

-- To take away a lease that is not there changes nothing.
unset :
    (k : String) (p : Provider) (j : String)
    → lookup k p.locks ≡ none
    → view p j ≡ set k none (view p) j
unset k p j n = elim (Bool-cases (str_eq k j)) [
  | inl y ↦ rw y (
      ap (λ x. Option.map lease_of (lookup x p.locks)) (sym ((eq_iff k j).0 y))
      ∙ ap (Option.map lease_of) n)
  | inr f ↦ rw f refl
]

force_view :
    (k : String) (p : Provider) (j : String)
    → (view (force_release k p).1 j ≡ lease_step (force_call k) (view p) j)
      × ((force_release k p).0 ≡ is_some (view p k))
unfolding force_release
force_view k p j = elim (Option-cases (lookup k p.locks)) [
  | inl n ↦ (
    ap (λ x. view x.1 j) (force_none k p n) ∙ unset k p j n,
    ap (λ x. x.0) (force_none k p n) ∙ sym (ap (λ o. is_some (Option.map lease_of o)) n),
  )
  | inr (l, e) ↦ (erased_view k p j (force_some k p l e), rw (e, force_release))
]

expired_lapsed :
    (now : ℕ) (o : Option CheckoutLock) → has_expired now o ≡ has_lapsed now (Option.map lease_of o)
unfolding is_expired
expired_lapsed now none = refl
expired_lapsed now (some l) = refl

-- The ids that a cleanup finds are those of the lapsed leases.
expired_ids-AreLapsed :
    (now : String → ℕ) (p : Provider)
    → HasUniqueKeys p.locks
    → AreLapsed now (view p) (expired_ids now p.locks)
expired_ids-AreLapsed now p u = record {
  distinct = expired_ids-AreDistinct now p.locks u;
  lapsed = λ k.
      subst (λ b. In k (expired_ids now p.locks) ↔ (b ≡ true))
        (expired_lapsed (now k) (lookup k p.locks)) (In-expired_ids now k p.locks u);
}

-- One call of the provider is one step of the table, with the same answer.
step_refines :
    (c : Call) (p : Provider)
    → HasUniqueKeys p.locks
    → ((j : String) → view (perform c p) j ≡ lease_step c (view p) j)
      × IsAnswer c (view p) (answer c p)
unfolding perform answer get_lock_info cleanup_expired
step_refines (try_call now check r k team m) p u =
    (λ j. (try_view now check r k team m p j).0, ap run (try_view now check r k team m p k).1)
step_refines (release_call now k r) p u =
    (λ j. (release-view now k r p j).0, ap flag (release-view now k r p k).1)
step_refines (heartbeat_call now k r m) p u =
    (λ j. (heartbeat-view now k r m p j).0, ap flag (heartbeat-view now k r m p k).1)
step_refines (cleanup_call now) p u = (
  λ j.
      ap (Option.map lease_of) (lookup-cleanup now j p u)
      ∙ unexpired-view (now j) (lookup j p.locks),
  (expired_ids now p.locks, expired_ids-AreLapsed now p u, refl),
)
step_refines (force_call k) p u = (λ j. (force_view k p j).0, ap flag (force_view k p k).1)

-- The answers of the code to a sequence of calls.
unfoldable pub answers : List Call → Provider → List Answer
answers [] p = []
answers (c ∷ cs) p = answer c p ∷ answers cs (perform c p)

refines_from :
    (cs : List Call) (p : Provider)
    → HasUniqueKeys p.locks
    → (view (perform_all cs p) ≡ lease_run cs (view p)) × AreAnswers (view p) cs (answers cs p)
unfolding perform_all answers
refines_from [] p u = (refl, done)
refines_from (c ∷ cs) p u =
    let (moved, one) = step_refines c p u in
    let same : view (perform c p) ≡ lease_step c (view p) = fun_ext moved in
    let (end, others) = refines_from cs (perform c p) (perform-HasUniqueKeys c p u) in
    (
      end ∙ ap (lease_run cs) same,
      next one (subst (λ t. AreAnswers t cs (answers cs (perform c p))) same others),
    )

-- The provider refines the table of leases: from a new provider and an empty table, any sequence
-- of calls leaves the same leases in both, and gets the answers of the table: a checkout the id of
-- its own run exactly when the ticket is free, a release or heartbeat whether the caller holds the
-- lease, a forced release whether there was one, and a cleanup the number of the lapsed leases.
pub perform_all_refines :
    (cs : List Call)
    → (view (perform_all cs new) ≡ lease_run cs (λ j. none))
      × AreAnswers (λ j. none) cs (answers cs new)
unfolding new lookup
perform_all_refines cs = refines_from cs new tt
