-- ===== src/TaskQueue/Keeps.antt =====
-- When a call leaves a given task as it is.
use swe_squad.Prelude.{
  ℕ, String, ◌≡◌, sym, ap, ◌∙◌, inl, inr, true, false, ◌&&◌, none, some, Bool-cases, Option-cases,
  arith, lookup, insert, lookup-insert_ne, str_eq, eq_iff, leb,
}
use swe_squad.TaskQueue.{
  QueuedTask, Queue, ok, is_claimed, enqueue, is_stale, claim, require_claimed, complete, fail,
  heartbeat,
}
use swe_squad.TaskQueue.Valid.{IsValid, after, require_claimed-ok, Result-cases}
use swe_squad.TaskQueue.Claim.{
  eligible, tasks₁, picked, lookup-tasks₁-some, picked_task, claim-none, claim-some,
  reclaim_one_fresh,
}

-- The calls that leave a task alone.
module _ (k : String) (t : QueuedTask) (q : Queue) (at : lookup k q.tasks ≡ some t) where
  keeps_insert :
      (j : String) (u : QueuedTask) → str_eq j k ≡ false → lookup k (insert j u q.tasks) ≡ some t
  keeps_insert j u n = lookup-insert_ne j k u q.tasks n ∙ at

  -- The guard passes only a claimed task.
  apart_of_guard :
      (j : String) (u : QueuedTask)
      → (str_eq j k && is_claimed t.status) ≡ false
      → require_claimed j q ≡ ok u
      → str_eq j k ≡ false
  apart_of_guard j u n g = elim (Bool-cases (str_eq j k)) [
    | inr f ↦ f
    | inl y ↦
        let (at', live, alive) = require_claimed-ok j q u g in
        let o : some u ≡ some t = sym at' ∙ (ap (λ x. lookup x q.tasks) ((eq_iff j k).0 y) ∙ at) in
        let o' : u ≡ t = cc in
        let live' : is_claimed t.status ≡ true =
          ap (λ (x : QueuedTask). is_claimed x.status) (sym o') ∙ live in
        absurd (ground arith)
  ]

  pub complete_keeps :
      (j r : String)
      → (str_eq j k && is_claimed t.status) ≡ false
      → lookup k (after q (complete j r q)).tasks ≡ some t
  unfolding complete
  complete_keeps j r n = elim (Result-cases (require_claimed j q)) [
    | inl (e, p) ↦ rw p at
    | inr (u, p) ↦ rw p (keeps_insert j _ (apart_of_guard j u n p))
  ]

  pub heartbeat_keeps :
      (now : ℕ) (j : String)
      → (str_eq j k && is_claimed t.status) ≡ false
      → lookup k (after q (heartbeat now j q)).tasks ≡ some t
  unfolding heartbeat
  heartbeat_keeps now j n = elim (Result-cases (require_claimed j q)) [
    | inl (e, p) ↦ rw p at
    | inr (u, p) ↦ rw p (keeps_insert j _ (apart_of_guard j u n p))
  ]

  pub fail_keeps :
      (now : ℕ) (j e : String)
      → (str_eq j k && is_claimed t.status) ≡ false
      → lookup k (after q (fail now j e q)).tasks ≡ some t
  unfolding fail
  fail_keeps now j e n = elim (Result-cases (require_claimed j q)) [
    | inl (x, p) ↦ rw p at
    | inr (u, p) ↦
        let apart = apart_of_guard j u n p in
        elim (Bool-cases (leb u.max_retries u.attempts)) [
          | inl y ↦ rw (p, y) (keeps_insert j _ apart)
          | inr f ↦ rw (p, f) (keeps_insert j _ apart)
        ]
  ]

  pub enqueue_keeps :
      (now : ℕ) (j ty ticket payload : String) (p : ℕ)
      → lookup j q.tasks ≡ none
      → lookup k (enqueue now j ty ticket payload p q).1.tasks ≡ some t
  unfolding enqueue
  enqueue_keeps now j ty ticket payload p n = elim (Bool-cases (str_eq j k)) [
    | inr f ↦ keeps_insert j _ f
    | inl y ↦
        let o : lookup j q.tasks ≡ some t = ap (λ x. lookup x q.tasks) ((eq_iff j k).0 y) ∙ at in
        absurd (cc)
  ]

  pub claim_keeps :
      (now : ℕ) (ty w : String)
      → IsValid q
      → is_stale now ty t ≡ false
      → eligible now ty t ≡ false
      → lookup k (claim now ty w q).1.tasks ≡ some t
  claim_keeps now ty w v ns ne =
      let kept : lookup k (tasks₁ now ty q) ≡ some t =
        lookup-tasks₁-some now ty q k t at ∙ ap some (reclaim_one_fresh now ty t ns) in
      elim (Option-cases (picked now ty q).chosen) [
        | inl p ↦ ap (λ x. lookup k x.1.tasks) (claim-none now ty q w p) ∙ kept
        | inr ((e, u), p) ↦
            let (t', at', el, r, same) = picked_task now ty q v e u p in
            ap (λ x. lookup k x.1.tasks) (claim-some now ty q w e u p)
            ∙ (lookup-insert_ne e.task_id k _ _ (not_picked e.task_id t' at' el) ∙ kept)
      ]
    where
      not_picked :
          (j : String) (t' : QueuedTask)
          → lookup j q.tasks ≡ some t'
          → eligible now ty t' ≡ true
          → str_eq j k ≡ false
      not_picked j t' at' el = elim (Bool-cases (str_eq j k)) [
        | inr f ↦ f
        | inl y ↦
            let o : some t' ≡ some t =
              sym at' ∙ (ap (λ x. lookup x q.tasks) ((eq_iff j k).0 y) ∙ at) in
            let o' : t' ≡ t = cc in
            let el' : eligible now ty t ≡ true = ap (λ x. eligible now ty x) (sym o') ∙ el in
            absurd (cc)
      ]
