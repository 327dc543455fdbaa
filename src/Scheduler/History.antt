-- ===== src/Scheduler/History.antt =====
-- RunHistoryStore of src/swe_team/scheduler.py: the file of run records, one to a line. A line is a
-- record, a text that is no JSON, or JSON that is no object; `none` is a file that is not there.
use swe_squad.Prelude.{
  ℕ, zero, suc, ◌-◌, ◌≡◌, refl, ap, ◌∙◌, inl, inr, Bool, true, false, not, Option, none, some, List,
  [], ◌∷◌, ◌++◌, length, take, drop, filter, ◌==◌, if◌then◌else◌, String, str_eq, eq_iff, arith,
  Bool-cases, All,
}
use mathlib.Core.List.{reverse, append-nil}
use swe_squad.Scheduler.Running.{RunRecord}

pub data Line : Type 0 where
  entry : RunRecord → Line
  bad_json : Line
  no_object : Line

-- The file after `append`.
unfoldable pub append : RunRecord → Option (List Line) → List Line
append r none = entry r ∷ []
append r (some lines) = lines ++ entry r ∷ []

abbrev pub wanted : Option String → RunRecord → Bool
wanted none r = true
wanted (some id) r = str_eq r.job_id id

abbrev cons_if : Bool → RunRecord → Option (List RunRecord) → Option (List RunRecord)
cons_if b r none = none
cons_if b r (some rs) = some (if b then r ∷ rs else rs)

-- The records that are wanted; `none` is the exception at a line that is no object.
unfoldable pub records : Option String → List Line → Option (List RunRecord)
records id [] = some []
records id (entry r ∷ lines) = let rest = records id lines in cons_if (wanted id r) r rest
records id (bad_json ∷ lines) = records id lines
records id (no_object ∷ lines) = none

unfoldable pub get_history : Option String → ℕ → Option (List Line) → List RunRecord
get_history id limit none = []
get_history id limit (some lines) = elim (records id lines) [
  | none ↦ []
  | some rs ↦ take limit (reverse rs)
]

-- `lines[-n:]`, which is the whole list for 0.
abbrev pub last {ℓ} : {A : Type ℓ} → ℕ → List A → List A
last n xs = if n == 0 then xs else drop (length xs - n) xs

abbrev pub is_of : String → Line → Bool
is_of id (entry r) = str_eq r.job_id id
is_of id bad_json = false
is_of id no_object = false

abbrev pub is_object : Line → Bool
is_object (entry r) = true
is_object bad_json = true
is_object no_object = false

abbrev pub all_objects : List Line → Bool
all_objects [] = true
all_objects (l ∷ lines) = let rest = all_objects lines in if is_object l then rest else false

-- `none` is the exception at a line that is no object, before the file is written.
unfoldable pub prune : String → ℕ → List Line → Option (List Line)
prune id max_per_job lines =
    if all_objects lines
    then some
        (filter (λ l. not (is_of id l)) lines ++ last max_per_job (filter (λ l. is_of id l) lines))
    else none

filter-append :
    (p : Line → Bool) (xs ys : List Line) → filter p (xs ++ ys) ≡ filter p xs ++ filter p ys
filter-append p [] ys = refl
filter-append p (x ∷ xs) ys = elim (Bool-cases (p x)) [
  | inl k ↦ rw k (ap (λ t. x ∷ t) (filter-append p xs ys))
  | inr k ↦ rw k (filter-append p xs ys)
]

filter-eq_self : (p : Line → Bool) (xs : List Line) → All (λ l. p l ≡ true) xs → filter p xs ≡ xs
filter-eq_self p [] h = refl
filter-eq_self p (x ∷ xs) h = rw (h.0) (ap (λ t. x ∷ t) (filter-eq_self p xs h.1))

filter-eq_nil : (p : Line → Bool) (xs : List Line) → All (λ l. p l ≡ false) xs → filter p xs ≡ []
filter-eq_nil p [] h = refl
filter-eq_nil p (x ∷ xs) h = rw (h.0) (filter-eq_nil p xs h.1)

All-drop : (P : Line → Type 0) (n : ℕ) (xs : List Line) → All P xs → All P (drop n xs)
All-drop P zero xs h = h
All-drop P (suc n) [] h = tt
All-drop P (suc n) (x ∷ xs) h = All-drop P n xs h.1

All-last : (P : Line → Type 0) (n : ℕ) (xs : List Line) → All P xs → All P (last n xs)
All-last P n xs h = elim (Bool-cases (n == 0)) [
  | inl none_given ↦ rw none_given h
  | inr some_given ↦ rw some_given (All-drop P (length xs - n) xs h)
]

-- What `filter` keeps, and a fact that follows for each line.
All-filter :
    (P : Line → Type 0) (p : Line → Bool) (xs : List Line)
    → ((l : Line) → p l ≡ true → P l)
    → All P (filter p xs)
All-filter P p [] f = tt
All-filter P p (x ∷ xs) f = elim (Bool-cases (p x)) [
  | inl k ↦ rw k (f x k, All-filter P p xs f)
  | inr k ↦ rw k (All-filter P p xs f)
]

module _ (id k : String) (other : str_eq id k ≡ false) where
  is_of_other : (l : Line) → is_of id l ≡ true → is_of k l ≡ false
  is_of_other (entry r) h = ground (arith, eq_iff r.job_id id, eq_iff r.job_id k, eq_iff id k)
  is_of_other bad_json h = refl
  is_of_other no_object h = refl

  filter_skip :
      (xs : List Line)
      → filter (λ l. is_of k l) (filter (λ l. not (is_of id l)) xs) ≡ filter (λ l. is_of k l) xs
  filter_skip [] = refl
  filter_skip (x ∷ xs) = elim (Bool-cases (is_of id x)) [
    | inl mine ↦ rw (mine, is_of_other x mine) (filter_skip xs)
    | inr no_one ↦ elim (Bool-cases (is_of k x)) [
      | inl theirs ↦ rw (no_one, theirs) (ap (λ t. x ∷ t) (filter_skip xs))
      | inr nor ↦ rw (no_one, nor) (filter_skip xs)
    ]
  ]

-- On a file of JSON objects and broken lines, `prune` keeps the entries of every other job as they
-- are and in order, and of the job's own the last `max_records_per_job` in order (all, if that is
-- 0).
pub prune_lem :
    (id : String) (max_per_job : ℕ) (lines : List Line) (k : String)
    → all_objects lines ≡ true
    → (kept : List Line) × (prune id max_per_job lines ≡ some kept)
      × (filter (λ l. is_of k l) kept ≡ (
          if str_eq id k
          then last max_per_job (filter (λ l. is_of k l) lines)
          else filter (λ l. is_of k l) lines))
unfolding prune
prune_lem id m lines k h =
    let rest = filter (λ l. not (is_of id l)) lines in
    let own = filter (λ l. is_of id l) lines in
    (
      rest ++ last m own,
      rw h refl,
      filter-append (λ l. is_of k l) rest (last m own) ∙ elim (Bool-cases (str_eq id k)) [
        | inl same ↦
            let e : id ≡ k = (eq_iff id k).0 same in
            rw same (
              rw (← e) (
                rw
                  (filter-eq_nil (λ l. is_of id l) rest
                    (All-filter _ (λ l. not (is_of id l)) lines (λ l n. ground arith)))
                  (filter-eq_self (λ l. is_of id l) (last m own)
                    (All-last _ m own (All-filter _ (λ l. is_of id l) lines (λ l y. y))))))
        | inr other ↦ rw other (
            rw
              (
                filter_skip id k other lines,
                filter-eq_nil (λ l. is_of k l) (last m own)
                    (All-last _ m own
                      (All-filter _ (λ l. is_of id l) lines (is_of_other id k other))),
              )
              (append-nil _))
      ],
    )
