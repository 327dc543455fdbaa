-- ===== src/TaskQueue/Select.antt =====
-- The second loop of `claim`: what it pops, keeps and chooses.
use mathlib.Core.Path.{subst, subst₂}
use swe_squad.Prelude.{
  ap, sym, ◌∙◌, ℕ, String, ◌≡◌, ◌≢◌, refl, ◌⊎◌, inl, inr, true, Option, some, is_some, List, [],
  ◌∷◌, ◌++◌, In, In-append_left, In-append_right, In-append_cases, Dict, lookup,
}
use swe_squad.Heapq.{Entry, entry_leb}
use swe_squad.Heapq.Order.{IsSorted, IsBelow, entry_leb_refl, entry_leb_of_IsBelow}
use swe_squad.TaskQueue.{QueuedTask, Verdict, discard, skip, choose, judge, Selection, select}

-- To split on a verdict and keep the equation.
Verdict-cases : (v : Verdict) → (v ≡ discard) ⊎ ((v ≡ skip) ⊎ ((t : QueuedTask) × (v ≡ choose t)))
Verdict-cases discard = inl refl
Verdict-cases skip = inr (inl refl)
Verdict-cases (choose t) = inr (inr (t, refl))

abbrev Pick : Type 0
Pick = Option (Entry × QueuedTask)

later : (x a : Entry) (h : List Entry) → In a (x ∷ h) → a ≢ x → In a h
later x a h (inl e) n = absurd (n e)
later x a h (inr m) n = m

drop_head : (x a : Entry) (h sk : List Entry) → In a (x ∷ h) ⊎ In a sk → a ≢ x → In a h ⊎ In a sk
drop_head x a h sk (inl m) n = inl (later x a h m n)
drop_head x a h sk (inr m) n = inr m

to_skipped :
    (x a : Entry) (h sk : List Entry) → In a (x ∷ h) ⊎ In a sk → In a h ⊎ In a (sk ++ x ∷ [])
to_skipped x a h sk (inl (inl e)) = inr (In-append_right a sk (x ∷ []) (inl e))
to_skipped x a h sk (inl (inr m)) = inl m
to_skipped x a h sk (inr m) = inr (In-append_left a sk (x ∷ []) m)

behind : (x a : Entry) (h sk : List Entry) → In a h ⊎ In a sk → In a (x ∷ h) ⊎ In a sk
behind x a h sk (inl m) = inl (inr m)
behind x a h sk (inr m) = inr m

behind_skipped :
    (x a : Entry) (h sk : List Entry) → In a h ⊎ In a (sk ++ x ∷ []) → In a (x ∷ h) ⊎ In a sk
behind_skipped x a h sk (inl m) = inl (inr m)
behind_skipped x a h sk (inr m) = elim (In-append_cases a sk (x ∷ []) m) [
  | inl old ↦ inr old
  | inr (inl e) ↦ inl (inl e)
  | inr (inr never) ↦ elim never [ ]
]

at_chosen :
    (x a : Entry) (h sk : List Entry) (w : QueuedTask)
    → In a (x ∷ h) ⊎ In a sk
    → (In a h ⊎ In a sk) ⊎ ((t : QueuedTask) × (◌≡◌ {A = Pick} (some (x, w)) (some (a, t))))
at_chosen x a h sk w (inl (inl e)) = inr (w, ap {B = Pick} (λ y. some (y, w)) (sym e))
at_chosen x a h sk w (inl (inr m)) = inl (inl m)
at_chosen x a h sk w (inr m) = inl (inr m)

least_of_head : (x a : Entry) (h : List Entry) → IsBelow x h → In a (x ∷ h) → entry_leb x a ≡ true
least_of_head x a h b (inl e) = rw e (entry_leb_refl x)
least_of_head x a h b (inr m) = entry_leb_of_IsBelow x a h b m

module _ (now : ℕ) (task_type : String) (tasks : Dict QueuedTask) where
  abbrev pub verdict : Entry → Verdict
  verdict e = judge now task_type (lookup e.task_id tasks)

  abbrev sel : List Entry → List Entry → Selection
  sel = select now task_type tasks

  discard_ne : (x a : Entry) (u : QueuedTask) → verdict x ≡ discard → verdict a ≡ choose u → a ≢ x
  discard_ne x a u p v e = cc (ap verdict e)

  skip_ne : (x a : Entry) (u : QueuedTask) → verdict x ≡ skip → verdict a ≡ choose u → a ≢ x
  skip_ne x a u p v e = cc (ap verdict e)

  -- One round of the loop, by verdict.
  step_discard : (x : Entry) (h sk : List Entry) → verdict x ≡ discard → sel (x ∷ h) sk ≡ sel h sk
  unfolding select
  step_discard x h sk p = rw (p, select)

  step_skip :
      (x : Entry) (h sk : List Entry) → verdict x ≡ skip → sel (x ∷ h) sk ≡ sel h (sk ++ x ∷ [])
  unfolding select
  step_skip x h sk p = rw (p, select)

  step_choose :
      (x : Entry) (h sk : List Entry) (t : QueuedTask)
      → verdict x ≡ choose t
      → sel (x ∷ h) sk ≡ record { chosen = some (x, t); rest = h; skipped = sk }
  unfolding select
  step_choose x h sk t p = rw (p, select)

  not_chosen_nil : (sk : List Entry) (e : Entry) (t : QueuedTask) → (sel [] sk).chosen ≢ some (e, t)
  unfolding select
  not_chosen_nil sk e t c = cc

  from_nil :
      (sk : List Entry) (a : Entry)
      → In a (sel [] sk).rest ⊎ In a (sel [] sk).skipped
      → In a [] ⊎ In a sk
  unfolding select
  from_nil sk a m = m

  -- What is chosen was judged to be, and is an entry of the heap.
  pub select_chosen :
      (h sk : List Entry) (e : Entry) (t : QueuedTask)
      → (sel h sk).chosen ≡ some (e, t)
      → (verdict e ≡ choose t) × In e h
  select_chosen [] sk e t c = absurd (not_chosen_nil sk e t c)
  select_chosen (x ∷ h) sk e t c = elim (Verdict-cases (verdict x)) [
    | inl p ↦ let (v, m) = select_chosen h sk e t (rw (step_discard x h sk p) at c) in (v, inr m)
    | inr (inl p) ↦
        let (v, m) = select_chosen h (sk ++ x ∷ []) e t (rw (step_skip x h sk p) at c) in (v, inr m)
    | inr (inr (u, p)) ↦
        let q : ◌≡◌ {A = Pick} (some (x, u)) (some (e, t)) = rw (step_choose x h sk u p) at c in
        let here : x ≡ e = cc in
        let same : u ≡ t = cc in (subst₂ (λ y w. verdict y ≡ choose w) here same p, inl (sym here))
  ]

  -- A task judged eligible is never passed over: something is chosen.
  pub select_finds :
      (h sk : List Entry) (a : Entry) (u : QueuedTask)
      → In a h
      → verdict a ≡ choose u
      → is_some (sel h sk).chosen ≡ true
  select_finds [] sk a u m v = elim m [ ]
  select_finds (x ∷ h) sk a u m v = elim (Verdict-cases (verdict x)) [
    | inl p ↦
        rw (step_discard x h sk p) (select_finds h sk a u (later x a h m (discard_ne x a u p v)) v)
    | inr (inl p) ↦
        rw (step_skip x h sk p)
          (select_finds h (sk ++ x ∷ []) a u (later x a h m (skip_ne x a u p v)) v)
    | inr (inr (w, p)) ↦ rw (step_choose x h sk w p)
  ]

  -- An entry that is not discarded stays, unless it is the one chosen.
  pub select_keeps :
      (h sk : List Entry) (a : Entry)
      → In a h ⊎ In a sk
      → verdict a ≢ discard
      → (In a (sel h sk).rest ⊎ In a (sel h sk).skipped)
        ⊎ ((t : QueuedTask) × ((sel h sk).chosen ≡ some (a, t)))
  select_keeps [] sk a (inl m) v = elim m [ ]
  select_keeps [] sk a (inr m) v = inl (inr (unfold select in m))
  select_keeps (x ∷ h) sk a m v = elim (Verdict-cases (verdict x)) [
    | inl p ↦
        rw (step_discard x h sk p)
          (select_keeps h sk a (drop_head x a h sk m (λ e. v (ap verdict e ∙ p))) v)
    | inr (inl p) ↦
        rw (step_skip x h sk p) (select_keeps h (sk ++ x ∷ []) a (to_skipped x a h sk m) v)
    | inr (inr (w, p)) ↦ rw (step_choose x h sk w p) (at_chosen x a h sk w m)
  ]

  -- Nothing comes from nowhere.
  pub select_only :
      (h sk : List Entry) (a : Entry)
      → In a (sel h sk).rest ⊎ In a (sel h sk).skipped
      → In a h ⊎ In a sk
  select_only [] sk a m = from_nil sk a m
  select_only (x ∷ h) sk a m = elim (Verdict-cases (verdict x)) [
    | inl p ↦ behind x a h sk (select_only h sk a (rw (step_discard x h sk p) at m))
    | inr (inl p) ↦
        behind_skipped x a h sk (select_only h (sk ++ x ∷ []) a (rw (step_skip x h sk p) at m))
    | inr (inr (w, p)) ↦ behind x a h sk (rw (step_choose x h sk w p) at m)
  ]

  -- On a sorted heap the chosen entry is at most every eligible one.
  pub select_least :
      (h sk : List Entry) (e : Entry) (t : QueuedTask) (a : Entry) (u : QueuedTask)
      → IsSorted h
      → (sel h sk).chosen ≡ some (e, t)
      → In a h
      → verdict a ≡ choose u
      → entry_leb e a ≡ true
  select_least [] sk e t a u s c m v = elim m [ ]
  select_least (x ∷ h) sk e t a u s c m v = elim (Verdict-cases (verdict x)) [
    | inl p ↦
        select_least h sk e t a u s.1 (rw (step_discard x h sk p) at c)
          (later x a h m (discard_ne x a u p v)) v
    | inr (inl p) ↦
        select_least h (sk ++ x ∷ []) e t a u s.1 (rw (step_skip x h sk p) at c)
          (later x a h m (skip_ne x a u p v)) v
    | inr (inr (w, p)) ↦
        let q : ◌≡◌ {A = Pick} (some (x, w)) (some (e, t)) = rw (step_choose x h sk w p) at c in
        let here : x ≡ e = cc in subst (λ y. entry_leb y a ≡ true) here (least_of_head x a h s.0 m)
  ]

  pub select-IsSorted : (h sk : List Entry) → IsSorted h → IsSorted (sel h sk).rest
  select-IsSorted [] sk s = unfold select in tt
  select-IsSorted (x ∷ h) sk s = elim (Verdict-cases (verdict x)) [
    | inl p ↦ rw (step_discard x h sk p) (select-IsSorted h sk s.1)
    | inr (inl p) ↦ rw (step_skip x h sk p) (select-IsSorted h (sk ++ x ∷ []) s.1)
    | inr (inr (u, p)) ↦ rw (step_choose x h sk u p) s.1
  ]
