-- ===== src/Costs/Budget.antt =====
-- When a budget stops a team, and that it stays stopped.
use swe_squad.Prelude.{
  ℕ, ◌+◌, ◌*◌, ◌≤◌, ◌<◌, ◌≡◌, refl, sym, ◌∙◌, ◌⊎◌, ◌↔◌, inl, inr, Bool, true, ◌&&◌, List, [], ◌∷◌,
  ◌++◌, String, lookup, ◌==◌, arith, Bool-cases, Option-cases,
}
use swe_squad.Costs.{
  BudgetPolicy, CostTracker, CostEvent, policy_or, get_budget_policy, record_cost, spend,
  get_daily_spend, get_monthly_spend, is_over_budget, is_hard_stop, used_at_least, percent_at_least,
  status_of, check_budget,
}

-- A positive budget, in cents, that the spending, in ten-thousandths of a cent, has used up.
abbrev pub UsedUp : ℕ → ℕ → Type 0
UsedUp spent budget = (0 < budget) × (budget * 10000 ≤ spent)

used_iff : (spent budget : ℕ) → (used_at_least spent budget 100 ≡ true) ↔ UsedUp spent budget
unfolding used_at_least
used_iff spent budget = ground arith

-- A recorded event.
pub data Cost : Type 0 where
  cost : String → List ℕ → ℕ → ℕ → String → String → Cost

unfoldable pub record_all : ℕ → List Cost → CostTracker → CostTracker
record_all today [] c = c
record_all today (cost team model i o op ticket ∷ cs) c =
    record_all today cs (record_cost today team model i o op ticket c).0

spend-append :
    (team : String) (in_period : ℕ → Bool) (es fs : List CostEvent)
    → spend team in_period (es ++ fs) ≡ spend team in_period es + spend team in_period fs
unfolding spend
spend-append team in_period [] fs = omega arith
spend-append team in_period (e ∷ es) fs = omega (arith, spend-append team in_period es fs)

pub spend_grows :
    (today : ℕ) (cs : List Cost) (c : CostTracker) (team : String) (in_period : ℕ → Bool)
    → spend team in_period c.events ≤ spend team in_period (record_all today cs c).events
unfolding record_all record_cost
spend_grows today [] c team in_period = omega arith
spend_grows today (cost t model i o op ticket ∷ cs) c team in_period =
    let d = (record_cost today t model i o op ticket c).0 in
    omega (arith, spend_grows today cs d team in_period, spend-append team in_period c.events _)

-- What makes the hard stop of a team.
abbrev pub IsOver : (month_of : ℕ → ℕ) (today : ℕ) → String → CostTracker → Type 0
IsOver month_of today team c =
    let p = policy_or (lookup team c.policies) in
    (p.hard_stop_enabled ≡ true)
    × (UsedUp (get_daily_spend today team c) p.daily_budget_cents
        ⊎ UsedUp (get_monthly_spend month_of today team c) p.monthly_budget_cents)

either_used :
    (p : BudgetPolicy) (daily monthly : ℕ)
    → ((p.hard_stop_enabled && percent_at_least p daily monthly 100) ≡ true) ↔ (
        (p.hard_stop_enabled ≡ true)
        × (UsedUp daily p.daily_budget_cents ⊎ UsedUp monthly p.monthly_budget_cents))
either_used p daily monthly =
    let d = used_iff daily p.daily_budget_cents in
    let m = used_iff monthly p.monthly_budget_cents in
    (
      λ h. elim (Bool-cases (used_at_least daily p.daily_budget_cents 100)) [
        | inl yes_d ↦ (ground arith, inl (d.0 yes_d))
        | inr no_d ↦ (ground arith, inr (m.0 (ground arith)))
      ],
      λ h. elim (h.1) [
        | inl u ↦ let k = d.1 u in rw (h.0, k) refl
        | inr u ↦ let k = m.1 u in ground arith
      ],
    )

stop_iff :
    (p : BudgetPolicy) (daily monthly : ℕ)
    → is_hard_stop (status_of p daily monthly)
      ≡ (p.hard_stop_enabled && percent_at_least p daily monthly 100)
unfolding status_of
stop_iff p daily monthly = ground arith

pub get_budget_policy-fields :
    (team : String) (c : CostTracker)
    → ((get_budget_policy team c).0.events ≡ c.events)
      × ((get_budget_policy team c).1 ≡ policy_or (lookup team c.policies))
unfolding get_budget_policy
get_budget_policy-fields team c = elim (Option-cases (lookup team c.policies)) [
  | inl e ↦ rw (e, get_budget_policy) (refl, refl)
  | inr (p, e) ↦ rw (e, get_budget_policy) (refl, refl)
]

-- A team is over its budget exactly if its policy, or the default one, has the hard stop enabled and
-- the day's or the month's spending has used up a budget that is not 0.
pub check_budget_iff :
    (month_of : ℕ → ℕ) (today : ℕ) (team : String) (c : CostTracker)
    → (is_over_budget (check_budget month_of today team c).1 ≡ true) ↔ IsOver month_of today team c
unfolding check_budget
check_budget_iff month_of today team c =
    let (same, policy) = get_budget_policy-fields team c in
    let b = policy_or (lookup team c.policies) in
    let daily = get_daily_spend today team c in
    let monthly = get_monthly_spend month_of today team c in
    let iff = either_used b daily monthly in
    let stop = stop_iff b daily monthly in
    rw (same, policy) (λ h. iff.0 (sym stop ∙ h), λ h. stop ∙ iff.1 h)

-- For the same policy and no less spending.
pub stays_over :
    (month_of : ℕ → ℕ) (today : ℕ) (team : String) (c d : CostTracker)
    → policy_or (lookup team d.policies) ≡ policy_or (lookup team c.policies)
    → ((in_period : ℕ → Bool) → spend team in_period c.events ≤ spend team in_period d.events)
    → is_over_budget (check_budget month_of today team c).1 ≡ true
    → is_over_budget (check_budget month_of today team d).1 ≡ true
stays_over month_of today team c d same grows h =
    let (on, used) = (check_budget_iff month_of today team c).0 h in
    let day = grows (λ x. x == today) in
    let month = grows (λ x. month_of x == month_of today) in
    (check_budget_iff month_of today team d).1
      (rw same (on, elim used [ inl u ↦ inl (u.0, omega arith) | inr u ↦ inr (u.0, omega arith) ]))

pub record_all-policies :
    (today : ℕ) (cs : List Cost) (c : CostTracker) → (record_all today cs c).policies ≡ c.policies
unfolding record_all record_cost
record_all-policies today [] c = refl
record_all-policies today (cost t model i o op ticket ∷ cs) c =
    record_all-policies today cs (record_cost today t model i o op ticket c).0

-- A team that is over its budget stays so for the rest of the day, whatever costs are recorded for
-- whichever teams.
pub over_budget_sticks :
    (month_of : ℕ → ℕ) (today : ℕ) (team : String) (cs : List Cost) (c : CostTracker)
    → is_over_budget (check_budget month_of today team c).1 ≡ true
    → is_over_budget (check_budget month_of today team (record_all today cs c)).1 ≡ true
over_budget_sticks month_of today team cs c =
    stays_over month_of today team c (record_all today cs c)
      (rw (record_all-policies today cs c) refl) (spend_grows today cs c team)
