-- ===== src/Access/Grants.antt =====
-- What an agent may do.
use swe_squad.Prelude.{
  ◌≡◌, refl, sym, ap, ◌∙◌, ◌↔◌, ◌⊎◌, inl, inr, String, true, false, some, List, [], ◌∷◌, In, lookup,
  eq_iff, arith, Bool-cases, Option-cases,
}
use mathlib.Core.Path.{subst}
use mathlib.Core.Option.{some_inj}
use swe_squad.Access.{
  AgentRole, is_in, has_permission, Override, RolesFile, missing, unreadable, parsed, RbacEngine,
  load, reload, is_empty, override_applies, check_overrides, check_permission, passes, enforce,
  check_role,
}

-- What an override says of an agent, a task and a severity, which is empty if it is not known.
pub record IsFor (agent task severity : String) (o : Override) : Type 0 where
  pub allows : In agent o.allow_agents
  pub for_task : (o.tasks ≡ []) ⊎ In task o.tasks
  pub for_severity : (o.severities ≡ []) ⊎ (severity ≡ "") ⊎ In severity o.severities

-- An enabled role that does not deny the task, and that permits it unless an override does.
pub record IsGranted (agent task severity : String) (e : RbacEngine) : Type 0 where
  pub role : AgentRole
  pub known : lookup agent e.roles ≡ some role
  pub enabled : role.enabled ≡ true
  pub not_denied : ¬ In task role.deny
  pub source :
      In task role.permissions ⊎ ((o : Override) × In o e.overrides × IsFor agent task severity o)

is_in_iff : (s : String) (texts : List String) → (is_in s texts ≡ true) ↔ In s texts
is_in_iff s [] = ground arith
is_in_iff s (t ∷ ts) = ground (arith, is_in_iff s ts, eq_iff t s, eq_iff s t)

is_empty_iff : (texts : List String) → (is_empty texts ≡ true) ↔ (texts ≡ [])
is_empty_iff [] = (λ h. refl, λ h. refl)
is_empty_iff (t ∷ ts) = ground arith

override_iff :
    (agent task severity : String) (o : Override)
    → (override_applies agent task severity o ≡ true) ↔ IsFor agent task severity o
unfolding override_applies
override_iff agent task severity o =
    let agents = is_in_iff agent o.allow_agents in
    let tasks = is_in_iff task o.tasks in
    let no_tasks = is_empty_iff o.tasks in
    let severities = is_in_iff severity o.severities in
    let no_severities = is_empty_iff o.severities in
    let unknown = eq_iff severity "" in
    (
      λ h. record {
        allows = ground (arith, agents, h);
        for_task = ground (arith, tasks, no_tasks, h);
        for_severity = ground (arith, severities, no_severities, unknown, h);
      },
      λ h.
          let a = h.allows in
          let t = h.for_task in
          let s = h.for_severity in
          ground (arith, agents, tasks, no_tasks, severities, no_severities, unknown, a, t, s),
    )

overrides_iff :
    (agent task severity : String) (os : List Override)
    → ((check_overrides agent task severity os).0 ≡ true)
      ↔ ((o : Override) × In o os × IsFor agent task severity o)
unfolding check_overrides
overrides_iff agent task severity [] = (λ h. absurd (ground arith), λ (o, m, f). elim m [ ])
overrides_iff agent task severity (o ∷ os) =
    let rest = overrides_iff agent task severity os in
    let this = override_iff agent task severity o in
    elim (Bool-cases (override_applies agent task severity o)) [
      | inl y ↦ rw y (λ h. (o, inl refl, this.0 y), λ h. refl)
      | inr n ↦ rw n (
        λ h. let (p, m, f) = rest.0 h in (p, inr m, f),
        λ (p, m, f). elim m [
          | inl e ↦
              let yes = this.1 (subst (IsFor agent task severity) e f) in
              absurd (ground (arith, yes, n))
          | inr k ↦ rest.1 (p, k, f)
        ],
      )
    ]

role_iff :
    (agent task severity : String) (e : RbacEngine) (r : AgentRole)
    → lookup agent e.roles ≡ some r
    → ((check_role agent task severity e.overrides r).0 ≡ true) ↔ IsGranted agent task severity e
unfolding has_permission
role_iff agent task severity e r known =
    let denied = is_in_iff task r.deny in
    let permitted = is_in_iff task r.permissions in
    let overrides = overrides_iff agent task severity e.overrides in
    (
      λ h. record {
        role = r;
        known = known;
        enabled = ground (arith, h);
        not_denied = λ m. ground (arith, denied, m, h);
        source = elim (Bool-cases (is_in task r.permissions)) [
          | inl y ↦ inl (permitted.0 y)
          | inr n ↦ inr (overrides.0 (ground (arith, h, n)))
        ];
      },
      λ h.
          let same : h.role ≡ r = some_inj.0 (sym h.known ∙ known) in
          let on = ap (λ x. x.enabled) same in
          let not_denied : ¬ In task r.deny = subst (λ x. ¬ In task x.deny) same h.not_denied in
          elim h.source [
            | inl m ↦
                let yes = permitted.1 (subst (λ x. In task x.permissions) same m) in
                ground (arith, h.enabled, on, not_denied, denied, yes)
            | inr o ↦
                let yes = overrides.1 o in ground (arith, h.enabled, on, not_denied, denied, yes)
          ],
    )

permitted_iff :
    (agent task severity : String) (e : RbacEngine)
    → ((check_permission agent task severity e).0 ≡ true) ↔ IsGranted agent task severity e
unfolding check_permission
permitted_iff agent task severity e = elim (Option-cases (lookup agent e.roles)) [
  | inl n ↦
      rw (n, check_permission)
        (λ h. absurd (ground arith), λ g. let k = g.known in absurd (ground (arith, n, k)))
  | inr (r, known) ↦
      let iff = role_iff agent task severity e r known in
      rw (known, check_permission) (λ h. iff.0 h, λ g. iff.1 g)
]

enforce_iff :
    (agent task severity : String) (e : RbacEngine)
    → (enforce agent task severity e ≡ passes) ↔ ((check_permission agent task severity e).0 ≡ true)
unfolding enforce
enforce_iff agent task severity e = ground arith

-- An agent may do a task exactly if the roles file has it as an enabled role that does not deny the
-- task, and that permits it or is allowed it by an override. An override allows it to the agents it
-- names, for its tasks and severities, where no list means any; one with severities also holds
-- where the severity is not known. `enforce` raises exactly if the agent may not do the task.
pub check_permission_iff :
    (agent task severity : String) (e : RbacEngine)
    → (((check_permission agent task severity e).0 ≡ true) ↔ IsGranted agent task severity e)
      × ((enforce agent task severity e ≡ passes) ↔ IsGranted agent task severity e)
check_permission_iff agent task severity e =
    let p = permitted_iff agent task severity e in
    let f = enforce_iff agent task severity e in (p, (λ h. p.0 (f.0 h), λ g. f.1 (p.1 g)))

-- After a reload from a file that is missing or cannot be read no agent may do anything, whatever
-- was granted before.
pub reload_fails_closed :
    (file : RolesFile) (agent task severity : String) (e : RbacEngine)
    → (file ≡ missing) ⊎ (file ≡ unreadable)
    → (check_permission agent task severity (reload file e)).0 ≡ false
unfolding check_permission reload load lookup
reload_fails_closed missing agent task severity e h = refl
reload_fails_closed unreadable agent task severity e h = refl
reload_fails_closed (parsed roles overrides) agent task severity e h = ground arith
