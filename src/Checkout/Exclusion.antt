-- ===== src/Checkout/Exclusion.antt =====
-- Mutual exclusion: a run that checked a ticket out holds it up to the expiry of its lock.
use mathlib.Core.Path.{subst}
use swe_squad.Prelude.{
  ℕ, ◌+◌, ◌≤◌, String, ◌≡◌, ◌≢◌, refl, sym, ap, ◌∙◌, ◌⊎◌, inl, inr, Bool, true, false, not, ◌&&◌,
  Option, none, some, List, [], ◌∷◌, All, arith, Bool-cases, Option-cases, lookup, insert, erase,
  lookup-insert, lookup-erase, Dict, HasUniqueKeys, insert-HasUniqueKeys, erase-HasUniqueKeys,
  str_eq, eq_iff, if◌then◌else◌,
}
use swe_squad.Checkout.{
  CheckoutLock, Provider, minutes, is_expired, is_live, try_checkout, held_by, release, heartbeat,
  is_locked, unexpired, get_lock_info, force_release, Call, try_call, release_call, heartbeat_call,
  cleanup_call, force_call, perform, perform_all,
}
use swe_squad.Checkout.Cleanup.{cleanup-HasUniqueKeys, lookup-cleanup}

-- A checkout succeeds exactly when no live lock stands; the ticket is then locked by the caller's
-- run, and no other lock changes. When it fails no lock changes at all.
pub try_checkout_lem :
    (now check : ℕ) (r k team j : String) (m : ℕ) (p : Provider)
    → let (result, p') = try_checkout now check r k team m p in
      (result ≡ (if is_locked check k p then none else some r))
      × (lookup j p'.locks ≡ (
          if not (is_locked check k p) && str_eq k j
          then some (record {
            run_id = r;
            locked_by = team;
            locked_at = now;
            expires_at = now + minutes m;
          })
          else lookup j p.locks))
unfolding try_checkout is_locked
try_checkout_lem now check r k team j m p = elim (Bool-cases (is_live check (lookup k p.locks))) [
  | inl y ↦ rw y (refl, refl)
  | inr n ↦ rw n (refl, lookup-insert k j _ p.locks)
]

pub held_by-cases :
    (k r : String) (p : Provider)
    → (held_by k r p ≡ none)
      ⊎ ((l : CheckoutLock) × (held_by k r p ≡ some l)
          × (lookup k p.locks ≡ some l)
          × (str_eq l.run_id r ≡ true))
unfolding held_by
held_by-cases k r p = elim (Option-cases (lookup k p.locks)) [
  | inl n ↦ inl (rw (n, held_by))
  | inr (l, e) ↦ elim (Bool-cases (str_eq l.run_id r)) [
    | inl y ↦ inr (l, rw (e, held_by) (rw y), e, y)
    | inr f ↦ inl (rw (e, held_by) (rw f))
  ]
]

same_locks : (d d' : Dict CheckoutLock) → d ≡ d' → HasUniqueKeys d' → HasUniqueKeys d
same_locks d d' e u = subst HasUniqueKeys (sym e) u

not_held :
    (k r : String) (p : Provider) (l : CheckoutLock)
    → lookup k p.locks ≡ some l
    → str_eq l.run_id r ≡ false
    → held_by k r p ≡ none
unfolding held_by
not_held k r p l at n = rw (at, held_by) (rw n)

-- The branches of the methods, as equations.
module _ (now : ℕ) (k r : String) (p : Provider) where
  pub release-none : held_by k r p ≡ none → release now k r p ≡ (false, p)
  unfolding release
  release-none n = rw (n, release)

  pub release-some :
      (l : CheckoutLock) → held_by k r p ≡ some l → (release now k r p).1.locks ≡ erase k p.locks
  unfolding release
  release-some l e = rw (e, release)

  pub heartbeat-none : (m : ℕ) → held_by k r p ≡ none → heartbeat now k r m p ≡ (false, p)
  unfolding heartbeat
  heartbeat-none m n = rw (n, heartbeat)

  pub heartbeat-some :
      (m : ℕ) (l : CheckoutLock)
      → held_by k r p ≡ some l
      → (heartbeat now k r m p).1.locks
        ≡ insert k (record l { expires_at = now + minutes m }) p.locks
  unfolding heartbeat
  heartbeat-some m l e = rw (e, heartbeat)

module _ (k : String) (p : Provider) where
  pub force_none : lookup k p.locks ≡ none → force_release k p ≡ (false, p)
  unfolding force_release
  force_none n = rw (n, force_release)

  pub force_some :
      (l : CheckoutLock) → lookup k p.locks ≡ some l → (force_release k p).1.locks ≡ erase k p.locks
  unfolding force_release
  force_some l e = rw (e, force_release)

try-HasUniqueKeys :
    (now check : ℕ) (r k team : String) (m : ℕ) (p : Provider)
    → HasUniqueKeys p.locks
    → HasUniqueKeys (try_checkout now check r k team m p).1.locks
unfolding try_checkout
try-HasUniqueKeys now check r k team m p u =
    if_HasUniqueKeys (is_live check (lookup k p.locks)) _ _ u (insert-HasUniqueKeys k _ p.locks u)
  where
    if_HasUniqueKeys :
        (b : Bool) (x y : Option String × Provider)
        → HasUniqueKeys x.1.locks
        → HasUniqueKeys y.1.locks
        → HasUniqueKeys (if b then x else y).1.locks
    if_HasUniqueKeys true x y hx hy = hx
    if_HasUniqueKeys false x y hx hy = hy

-- Python's dictionaries have unique keys: every call keeps that.
pub perform-HasUniqueKeys :
    (c : Call) (p : Provider) → HasUniqueKeys p.locks → HasUniqueKeys (perform c p).locks
unfolding perform
perform-HasUniqueKeys (try_call now check r k team m) p u =
    try-HasUniqueKeys now check r k team m p u
perform-HasUniqueKeys (release_call now k r) p u = elim (Option-cases (held_by k r p)) [
  | inl n ↦ same_locks _ _ (ap (λ x. x.1.locks) (release-none now k r p n)) u
  | inr (l, e) ↦ same_locks _ _ (release-some now k r p l e) (erase-HasUniqueKeys k p.locks u)
]
perform-HasUniqueKeys (heartbeat_call now k r m) p u = elim (Option-cases (held_by k r p)) [
  | inl n ↦ same_locks _ _ (ap (λ x. x.1.locks) (heartbeat-none now k r p m n)) u
  | inr (l, e) ↦
      same_locks _ _ (heartbeat-some now k r p m l e) (insert-HasUniqueKeys k _ p.locks u)
]
perform-HasUniqueKeys (cleanup_call now) p u = cleanup-HasUniqueKeys now p u
perform-HasUniqueKeys (force_call k) p u = elim (Option-cases (lookup k p.locks)) [
  | inl n ↦ same_locks _ _ (ap (λ x. x.1.locks) (force_none k p n)) u
  | inr (l, e) ↦ same_locks _ _ (force_some k p l e) (erase-HasUniqueKeys k p.locks u)
]

-- The calls that others may make while the lock `l` on `k` is live: all but those that know the
-- run's id and `force_release` of the ticket, with every reading of the clock up to the expiry.
abbrev pub IsForeign : String → CheckoutLock → Call → Type 0
IsForeign k l (try_call now check r j team m) = check ≤ l.expires_at
IsForeign k l (release_call now j r) = r ≢ l.run_id
IsForeign k l (heartbeat_call now j r m) = r ≢ l.run_id
IsForeign k l (cleanup_call now) = now k ≤ l.expires_at
IsForeign k l (force_call j) = j ≢ k

live_until : (now : ℕ) (l : CheckoutLock) → now ≤ l.expires_at → is_expired now l ≡ false
unfolding is_expired
live_until now l h = ground arith

apart : (j k : String) → j ≢ k → str_eq j k ≡ false
apart j k n = elim (Bool-cases (str_eq j k)) [ inl y ↦ absurd (n ((eq_iff j k).0 y)) | inr f ↦ f ]

module _ (k : String) (l : CheckoutLock) (p : Provider) (at : lookup k p.locks ≡ some l) where
  -- A run that holds the lock of `j` is not another run, unless `j` is another ticket.
  other_ticket :
      (j r : String) (h : CheckoutLock)
      → r ≢ l.run_id
      → lookup j p.locks ≡ some h
      → str_eq h.run_id r ≡ true
      → str_eq j k ≡ false
  other_ticket j r h n at' y = elim (Bool-cases (str_eq j k)) [
    | inr f ↦ f
    | inl e ↦
        let o : some h ≡ some l = sym at' ∙ (ap (λ x. lookup x p.locks) ((eq_iff j k).0 e) ∙ at) in
        let o' : h ≡ l = cc in absurd (n (sym ((eq_iff h.run_id r).0 y) ∙ ap (λ x. x.run_id) o'))
  ]

  foreign_keeps :
      (c : Call) → HasUniqueKeys p.locks → IsForeign k l c → lookup k (perform c p).locks ≡ some l
  unfolding perform get_lock_info unexpired
  foreign_keeps (try_call now check r j team m) u f =
      (try_checkout_lem now check r j team k m p).1 ∙ refused
    where
      blocked : str_eq j k ≡ true → is_locked check j p ≡ true
      blocked y =
          unfold is_locked is_live in
          rw (ap (λ x. lookup x p.locks) ((eq_iff j k).0 y) ∙ at, live_until check l f)

      refused :
          (if not (is_locked check j p) && str_eq j k
            then some (record {
              run_id = r;
              locked_by = team;
              locked_at = now;
              expires_at = now + minutes m;
            })
            else lookup k p.locks)
          ≡ some l
      refused = elim (Bool-cases (str_eq j k)) [
        | inl y ↦ rw (blocked y) at
        | inr n ↦ rw n (ground arith)
      ]
  foreign_keeps (release_call now j r) u f = elim (held_by-cases j r p) [
    | inl n ↦ ap (λ x. lookup k x.1.locks) (release-none now j r p n) ∙ at
    | inr (h, e, at', y) ↦
        ap (lookup k) (release-some now j r p h e)
        ∙ (lookup-erase j k p.locks ∙ rw (other_ticket j r h f at' y) at)
  ]
  foreign_keeps (heartbeat_call now j r m) u f = elim (held_by-cases j r p) [
    | inl n ↦ ap (λ x. lookup k x.1.locks) (heartbeat-none now j r p m n) ∙ at
    | inr (h, e, at', y) ↦
        ap (lookup k) (heartbeat-some now j r p m h e)
        ∙ (lookup-insert j k _ p.locks ∙ rw (other_ticket j r h f at' y) at)
  ]
  foreign_keeps (cleanup_call now) u f =
      lookup-cleanup now k p u
      ∙ (ap (unexpired (now k)) at ∙ unfold unexpired in rw (live_until (now k) l f))
  foreign_keeps (force_call j) u f = elim (Option-cases (lookup j p.locks)) [
    | inl n ↦ ap (λ x. lookup k x.1.locks) (force_none j p n) ∙ at
    | inr (h, e) ↦
        ap (lookup k) (force_some j p h e) ∙ (lookup-erase j k p.locks ∙ rw (apart j k f) at)
  ]

-- With one lock for each ticket, a ticket that is checked out stays with its run up to the expiry
-- of the lock, through any calls of others before then and without a forced release of it; it is
-- then still reported as locked, and a further checkout is refused.
pub checkout_excludes :
    (k : String) (l : CheckoutLock) (cs : List Call) (p : Provider) (now check : ℕ)
    (r team : String) (m : ℕ)
    → HasUniqueKeys p.locks
    → lookup k p.locks ≡ some l
    → All (IsForeign k l) cs
    → check ≤ l.expires_at
    → (lookup k (perform_all cs p).locks ≡ some l)
      × (is_locked check k (perform_all cs p) ≡ true)
      × ((try_checkout now check r k team m (perform_all cs p)).0 ≡ none)
unfolding perform_all
checkout_excludes k l [] p now check r team m u at f h =
    let locked : is_locked check k p ≡ true =
      unfold is_locked is_live in rw (at, live_until check l h) in
    (at, locked, (try_checkout_lem now check r k team k m p).0 ∙ rw locked)
checkout_excludes k l (c ∷ cs) p now check r team m u at f h =
    checkout_excludes k l cs (perform c p) now check r team m (perform-HasUniqueKeys c p u)
      (foreign_keeps k l p at c u f.0) f.1 h

-- `release` and `heartbeat` by a run that does not hold the lock return false and change nothing.
pub holder_only :
    (now : ℕ) (k r : String) (m : ℕ) (p : Provider) (l : CheckoutLock)
    → lookup k p.locks ≡ some l
    → l.run_id ≢ r
    → (release now k r p ≡ (false, p)) × (heartbeat now k r m p ≡ (false, p))
holder_only now k r m p l at n =
    let h : held_by k r p ≡ none = not_held k r p l at (apart l.run_id r n) in
    (release-none now k r p h, heartbeat-none now k r p m h)
