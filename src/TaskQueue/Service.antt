-- ===== src/TaskQueue/Service.antt =====
-- What a worker may rely on when it claims a task.
use mathlib.Core.Option
use mathlib.Core.Path.{subst}
use swe_squad.Prelude.{
  ℕ, String, ◌≡◌, refl, sym, ap, ◌∙◌, inl, inr, true, some, is_some, [], Option-cases, lookup,
  lookup-insert, if◌then◌else◌, str_eq,
}
use swe_squad.Heapq.{entry_leb}
use swe_squad.TaskQueue.{QueuedTask, Queue, entry_of, reclaim_one, mark_claimed, claim}
use swe_squad.TaskQueue.Reclaim.{reclaim-IsSorted}
use swe_squad.TaskQueue.Select.{select_finds, select_least}
use swe_squad.TaskQueue.Valid.{IsValid}
use swe_squad.TaskQueue.Claim.{
  eligible, tasks₁, heap₁, picked, lookup-tasks₁, eligible_waits, picked_task, claim-none,
  claim-some, entry_of-reclaim_one, mark_claimed-reclaim_one,
}

module _ (now : ℕ) (task_type worker_id : String) (q : Queue) where
  -- In a valid queue, while some task of the type is eligible, `claim` hands one out.
  pub claim_finds :
      IsValid q
      → (k : String) (t : QueuedTask) → lookup k q.tasks ≡ some t
      → eligible now task_type t ≡ true
      → is_some (claim now task_type worker_id q).0 ≡ true
  claim_finds v k t at h =
      let (m, j) = eligible_waits now task_type q v k t at h in
      let found =
        select_finds now task_type (tasks₁ now task_type q) (heap₁ now task_type q) [] (entry_of t)
          (reclaim_one now task_type t) m j in
      elim (Option-cases (picked now task_type q).chosen) [
        | inl p ↦ let none_found = rw p at found in absurd (cc)
        | inr ((e, u), p) ↦ rw (claim-some now task_type q worker_id e u p)
      ]

  -- In a valid queue a claimed task was stored and eligible, and is returned marked. It is stored
  -- as returned, and every other task is as the expiry of leases alone leaves it.
  pub claim_effect :
      IsValid q
      → (c : QueuedTask) (j : String) → (claim now task_type worker_id q).0 ≡ some c
      → ((t : QueuedTask) × (lookup c.task_id q.tasks ≡ some t)
          × (eligible now task_type t ≡ true)
          × (c ≡ mark_claimed now worker_id t))
        × (lookup j (claim now task_type worker_id q).1.tasks ≡ (
            if str_eq c.task_id j
            then some c
            else Option.map (reclaim_one now task_type) (lookup j q.tasks)))
  claim_effect v c j h = elim (Option-cases (picked now task_type q).chosen) [
    | inl p ↦ let e = rw (claim-none now task_type q worker_id p) at h in absurd (cc)
    | inr ((e, u), p) ↦
        let (t, at, el, r, same) = picked_task now task_type q v e u p in
        let got : some (mark_claimed now worker_id u) ≡ some c =
          rw (claim-some now task_type q worker_id e u p) at h in
        let got' : mark_claimed now worker_id u ≡ c = cc in
        let key : e.task_id ≡ c.task_id =
          ap (λ x. x.task_id) (sym same ∙ sym (entry_of-reclaim_one now task_type t))
          ∙ (ap (λ x. x.task_id) (sym r) ∙ ap (λ x. x.task_id) got') in
        (
          (
            t,
            subst (λ x. lookup x q.tasks ≡ some t) key at,
            el,
            sym got'
                ∙ (ap (mark_claimed now worker_id) r
                    ∙ mark_claimed-reclaim_one now now task_type worker_id t),
          ),
          ap (λ x. lookup j x.1.tasks) (claim-some now task_type q worker_id e u p)
              ∙ (lookup-insert e.task_id j _ (tasks₁ now task_type q)
                  ∙ rw (key, lookup-tasks₁ now task_type q j, got') refl),
        )
  ]

  -- In a valid queue no eligible task stands before the claimed one in the order of priority,
  -- creation and id.
  pub claim_least :
      IsValid q
      → (c : QueuedTask) → (claim now task_type worker_id q).0 ≡ some c
      → (k : String) (t : QueuedTask) → lookup k q.tasks ≡ some t
      → eligible now task_type t ≡ true
      → entry_leb (entry_of c) (entry_of t) ≡ true
  claim_least v c h k t at el = elim (Option-cases (picked now task_type q).chosen) [
    | inl p ↦ let e = rw (claim-none now task_type q worker_id p) at h in absurd (cc)
    | inr ((e, u), p) ↦
        let (m, j) = eligible_waits now task_type q v k t at el in
        let (t', at', el', r, same) = picked_task now task_type q v e u p in
        let got : some (mark_claimed now worker_id u) ≡ some c =
          rw (claim-some now task_type q worker_id e u p) at h in
        let got' : mark_claimed now worker_id u ≡ c = cc in
        let entry : entry_of c ≡ e =
          sym (ap (λ x. entry_of x) got')
          ∙ (ap (λ x. entry_of x) r ∙ (entry_of-reclaim_one now task_type t' ∙ same)) in
        subst (λ x. entry_leb x (entry_of t) ≡ true) (sym entry)
          (select_least now task_type (tasks₁ now task_type q) (heap₁ now task_type q) [] e u
            (entry_of t) (reclaim_one now task_type t)
            (reclaim-IsSorted now task_type q.tasks q.heap v.sorted) p m j)
  ]
