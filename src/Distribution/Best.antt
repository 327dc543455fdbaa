-- ===== src/Distribution/Best.antt =====
-- Which team gets a ticket.
use swe_squad.Prelude.{
  In-filter, ℕ, ◌<◌, ◌≡◌, refl, sym, ap, ◌∙◌, ◌↔◌, ◌⊎◌, inl, inr, String, true, false, ◌&&◌, Option,
  none, some, List, [], ◌∷◌, In, map, filter, ltb, if◌then◌else◌, arith, Bool-cases,
}
use mathlib.Core.Path.{subst}
use swe_squad.Distribution.{
  Team, Work, get_available_teams, has_role, required_role_of, Row, row, is_less, greatest,
  may_take, team_of, or_all, find_best_team,
}

-- A team with a free place.
abbrev pub HasPlace : (load : String → ℕ) → List Team → Team → Type 0
HasPlace load teams t = In t teams × (load t.name < t.max_concurrent)

-- A team with a free place that has the role of the ticket, or any with one if none has the role,
-- unless the ticket stalled with it.
pub record IsEligible (now : ℕ) (load : String → ℕ) (teams : List Team) (w : Work) (t : Team)
    : Type 0 where
  pub place : HasPlace load teams t
  pub role :
      (has_role (some (required_role_of w)) t ≡ true)
      ⊎ ((u : Team) → HasPlace load teams u → has_role (some (required_role_of w)) u ≡ false)
  pub may : may_take now w t ≡ true

available_iff :
    (load : String → ℕ) (teams : List Team) (t : Team)
    → In t (get_available_teams load teams none) ↔ HasPlace load teams t
unfolding get_available_teams
available_iff load teams t =
    let f = In-filter (λ u. has_role none u && ltb (load u.name) u.max_concurrent) t teams in
    (λ h. let (m, k) = f.0 h in (m, ground (arith, k)), λ (m, k). f.1 (m, ground (arith, k)))

with_role_iff :
    (load : String → ℕ) (teams : List Team) (w : Work) (t : Team)
    → In t (get_available_teams load teams (some (required_role_of w)))
      ↔ (HasPlace load teams t × (has_role (some (required_role_of w)) t ≡ true))
unfolding get_available_teams
with_role_iff load teams w t =
    let role = some (required_role_of w) in
    let f = In-filter (λ u. has_role role u && ltb (load u.name) u.max_concurrent) t teams in
    (
      λ h. let (m, k) = f.0 h in ((m, ground (arith, k)), ground (arith, k)),
      λ ((m, k), r). f.1 (m, ground (arith, k, r)),
    )

-- The teams that are left for a ticket.
abbrev eligible : (now : ℕ) (load : String → ℕ) → List Team → Work → List Team
eligible now load teams w = filter (may_take now w) (
    or_all (get_available_teams load teams (some (required_role_of w)))
      (get_available_teams load teams none))

or_all_iff :
    (t : Team) (some_of all : List Team)
    → In t (or_all some_of all) ↔ (In t some_of ⊎ ((some_of ≡ []) × In t all))
or_all_iff t [] all = (λ h. inr (refl, h), λ h. elim h [ inl z ↦ elim z [ ] | inr (e, m) ↦ m ])
or_all_iff t (u ∷ us) all =
    (λ h. inl h, λ h. elim h [ inl m ↦ m | inr (e, m) ↦ absurd (ground (arith, e)) ])

nothing_in : (teams : List Team) → ((u : Team) → In u teams → ⊥) → teams ≡ []
nothing_in [] h = refl
nothing_in (t ∷ ts) h = absurd (h t (inl refl))

less_self : (r : Row) → is_less r r ≡ false
less_self r = ground arith

none_of :
    (load : String → ℕ) (teams : List Team) (w : Work)
    → (get_available_teams load teams (some (required_role_of w)) ≡ [])
      ↔ ((u : Team) → HasPlace load teams u → has_role (some (required_role_of w)) u ≡ false)
none_of load teams w =
    let role = some (required_role_of w) in
    (
      λ e u place. elim (Bool-cases (has_role role u)) [
        | inl y ↦ elim (subst (In u) e ((with_role_iff load teams w u).1 (place, y))) [ ]
        | inr n ↦ n
      ],
      λ h. nothing_in (get_available_teams load teams role) (λ u m.
          let (place, y) = (with_role_iff load teams w u).0 m in
          let n = h u place in absurd (ground (arith, y, n))),
    )

eligible_iff :
    (now : ℕ) (load : String → ℕ) (teams : List Team) (w : Work) (t : Team)
    → In t (eligible now load teams w) ↔ IsEligible now load teams w t
eligible_iff now load teams w t =
    let f = In-filter (may_take now w) t (
      or_all (get_available_teams load teams (some (required_role_of w)))
        (get_available_teams load teams none)) in
    let o =
      or_all_iff t (get_available_teams load teams (some (required_role_of w)))
        (get_available_teams load teams none) in
    let role = with_role_iff load teams w t in
    let nobody = none_of load teams w in
    let place = available_iff load teams t in
    (
      λ h.
          let (m, may) = f.0 h in
          elim (o.0 m) [
            | inl k ↦ let (p, r) = role.0 k in record { place = p; role = inl r; may = may }
            | inr (e, k) ↦ record { place = place.0 k; role = inr (nobody.0 e); may = may }
          ],
      λ h. f.1 (
        o.1 (elim h.role [
          | inl r ↦ inl (role.1 (h.place, r))
          | inr n ↦ inr (nobody.1 n, place.1 h.place)
        ]),
        h.may,
      ),
    )

less_step : (g r s : Row) → is_less g s ≡ false → is_less r s ≡ true → is_less g r ≡ false
less_step g r s h k = ground arith

less_keep : (g r s : Row) → is_less g r ≡ false → is_less r s ≡ false → is_less g s ≡ false
less_keep g r s h k = ground arith

-- A row of the list that none exceeds.
abbrev IsGreatest : List Row → Row → Type 0
IsGreatest rows g = In g rows × ((s : Row) → In s rows → is_less g s ≡ false)

greatest-IsGreatest : (r : Row) (rs : List Row) → IsGreatest (r ∷ rs) (greatest r rs)
unfolding greatest
greatest-IsGreatest r [] = (
  inl refl,
  λ s m. elim m [
    | inl e ↦ subst (λ z. is_less r z ≡ false) (sym e) (less_self r)
    | inr z ↦ elim z [ ]
  ],
)
greatest-IsGreatest r (s ∷ rs) = elim (Bool-cases (is_less r s)) [
  | inl y ↦
      let (m, above) = greatest-IsGreatest s rs in
      let step : greatest r (s ∷ rs) ≡ greatest s rs =
        ap (λ b. greatest (if b then s else r) rs) y in
      subst (IsGreatest (r ∷ s ∷ rs)) (sym step) (
        inr m,
        λ x k. elim k [
          | inl e ↦
              subst (λ z. is_less (greatest s rs) z ≡ false) (sym e)
                (less_step (greatest s rs) r s (above s (inl refl)) y)
          | inr l ↦ above x l
        ],
      )
  | inr n ↦
      let (m, above) = greatest-IsGreatest r rs in
      let step : greatest r (s ∷ rs) ≡ greatest r rs =
        ap (λ b. greatest (if b then s else r) rs) n in
      subst (IsGreatest (r ∷ s ∷ rs)) (sym step) (
        elim m [ inl e ↦ inl e | inr k ↦ inr (inr k) ],
        λ x k. elim k [
          | inl e ↦ above x (inl e)
          | inr l ↦ elim l [
            | inl e ↦
                subst (λ z. is_less (greatest r rs) z ≡ false) (sym e)
                  (less_keep (greatest r rs) r s (above r (inl refl)) n)
            | inr o ↦ above x (inr o)
          ]
        ],
      )
]

map-row_iff :
    (load : String → ℕ) (w : Work) (ts : List Team) (r : Row)
    → In r (map (row load w) ts) ↔ ((t : Team) × In t ts × (r ≡ row load w t))
map-row_iff load w [] r = (λ h. elim h [ ], λ (t, m, e). elim m [ ])
map-row_iff load w (t ∷ ts) r =
    let rest = map-row_iff load w ts r in
    (
      λ h. elim h [ inl e ↦ (t, inl refl, e) | inr k ↦ let (u, m, e) = rest.0 k in (u, inr m, e) ],
      λ (u, m, e). elim m [
        | inl same ↦ inl (e ∙ ap (row load w) same)
        | inr k ↦ inr (rest.1 (u, k, e))
      ],
    )

-- Of the eligible teams one that none exceeds: in the bonus and the matching specializations
-- together, then in the free places, then in the specializations.
abbrev pub IsBest : (now : ℕ) (load : String → ℕ) → List Team → Work → Team → Type 0
IsBest now load teams w t =
    IsEligible now load teams w t
    × ((u : Team) → IsEligible now load teams w u → is_less (row load w t) (row load w u) ≡ false)

-- What a search over the eligible teams gives.
abbrev pub IsFound : (now : ℕ) (load : String → ℕ) → List Team → Work → Option Team → Type 0
IsFound now load teams w none = (u : Team) → ¬ IsEligible now load teams w u
IsFound now load teams w (some t) = IsBest now load teams w t

row-team : (load : String → ℕ) (w : Work) (t : Team) → (row load w t).team ≡ t
unfolding row
row-team load w t = refl

-- The teams `ts` are the eligible ones.
team_of_lem :
    (now : ℕ) (load : String → ℕ) (teams : List Team) (w : Work) (ts : List Team)
    → ((t : Team) → In t ts ↔ IsEligible now load teams w t)
    → IsFound now load teams w (team_of (map (row load w) ts))
team_of_lem now load teams w [] iff = λ u h. (iff u).1 h
team_of_lem now load teams w (t ∷ ts) iff =
    let rows = map (row load w) ts in
    let g = greatest (row load w t) rows in
    let (here, above) = greatest-IsGreatest (row load w t) rows in
    let (u, m, e) = (map-row_iff load w (t ∷ ts) g).0 here in
    let same : g.team ≡ u = ap (λ r. r.team) e ∙ row-team load w u in
    subst (IsBest now load teams w) (sym same) (
      (iff u).0 m,
      λ v h.
          let k = (map-row_iff load w (t ∷ ts) (row load w v)).1 (v, (iff v).1 h, refl) in
          subst (λ r. is_less r (row load w v) ≡ false) e (above (row load w v) k),
    )

-- A team is found exactly if some team is eligible, and then it is a best one of those.
pub find_best_team-IsFound :
    (now : ℕ) (load : String → ℕ) (teams : List Team) (w : Work)
    → IsFound now load teams w (find_best_team now load teams w)
unfolding find_best_team
find_best_team-IsFound now load teams w =
    team_of_lem now load teams w (eligible now load teams w) (eligible_iff now load teams w)
