-- ===== src/Breaker/Window.antt =====
-- The results that the breaker keeps.
use swe_squad.Prelude.{
  ℕ, zero, suc, ◌+◌, ◌-◌, ◌≤◌, ◌<◌, ◌≡◌, refl, sym, ap, ◌∙◌, Bool, true, false, ◌&&◌, inl, inr,
  List, [], ◌∷◌, ◌++◌, length, length-append, drop, leb, ltb, ◌==◌, if◌then◌else◌, arith,
  Bool-cases,
}
use mathlib.Core.List.{append_assoc, append-nil}
use mathlib.Core.Path.{subst}
use swe_squad.Breaker.{
  CircuitBreaker, latest, reload, over_threshold, push, record_result, record_skip, clear_pause,
  Event, perform,
}

drop-append : (n : ℕ) (xs ys : List Bool) → n ≤ length xs → drop n xs ++ ys ≡ drop n (xs ++ ys)
drop-append zero xs ys h = refl
drop-append (suc n) [] ys h = absurd (omega arith)
drop-append (suc n) (x ∷ xs) ys h = drop-append n xs ys (omega arith)

drop-drop : (n : ℕ) (xs : List Bool) → drop 1 (drop n xs) ≡ drop (suc n) xs
drop-drop zero xs = refl
drop-drop (suc n) [] = refl
drop-drop (suc n) (x ∷ xs) = drop-drop n xs

length-drop : (n : ℕ) (xs : List Bool) → length (drop n xs) ≡ length xs - n
length-drop zero xs = omega arith
length-drop (suc n) [] = omega arith
length-drop (suc n) (x ∷ xs) = omega (arith, length-drop n xs)

-- The results that events record, oldest first.
abbrev pub recorded : List Event → List Bool
recorded [] = []
recorded (Event.result now b ∷ es) = b ∷ recorded es
recorded (e ∷ es) = recorded es

unfoldable pub perform_all : List Event → CircuitBreaker → CircuitBreaker
perform_all [] c = c
perform_all (e ∷ es) c = perform_all es (perform e c)

-- The results are the latest of all that were recorded.
record IsWindow (window : ℕ) (all : List Bool) (c : CircuitBreaker) : Type 0 where
  same : c.window_size ≡ window
  holds : c.results ≡ drop (length all - window) all

push-results :
    (window : ℕ) (all : List Bool) (b : Bool)
    → (if ltb window (length (drop (length all - window) all ++ b ∷ []))
        then drop 1 (drop (length all - window) all ++ b ∷ [])
        else drop (length all - window) all ++ b ∷ [])
      ≡ drop (length (all ++ b ∷ []) - window) (all ++ b ∷ [])
push-results window all b =
    let k = length all - window in
    let joined : drop k all ++ b ∷ [] ≡ drop k (all ++ b ∷ []) =
      drop-append k all (b ∷ []) (omega arith) in
    let size : length (drop k (all ++ b ∷ [])) ≡ length all + 1 - k =
      omega (arith, length-drop k (all ++ b ∷ []), length-append all (b ∷ [])) in
    let whole : length (all ++ b ∷ []) ≡ length all + 1 =
      omega (arith, length-append all (b ∷ [])) in
    rw (joined, size, whole)
      (elim (Bool-cases (ltb (length all) window)) [
        | inl room ↦
            let fits : ltb window (length all + 1 - k) ≡ false = ground arith in
            let same : length all + 1 - window ≡ k = ground arith in rw (fits, same) refl
        | inr full ↦
            let over : ltb window (length all + 1 - k) ≡ true = ground arith in
            let next : length all + 1 - window ≡ suc k = ground arith in
            rw (over, next) (drop-drop k (all ++ b ∷ []))
      ])

-- What is kept of what is kept.
latest-drop :
    (window : ℕ) (all : List Bool)
    → 0 < window
    → latest window (drop (length all - window) all) ≡ drop (length all - window) all
latest-drop window all h =
    let k = length all - window in
    let some_kept : (window == 0) ≡ false = ground arith in
    let none_more : length (drop k all) - window ≡ 0 = omega (arith, length-drop k all) in
    rw (some_kept, none_more) refl

perform-IsWindow :
    (window : ℕ) (all : List Bool) (e : Event) (c : CircuitBreaker)
    → 0 < window
    → IsWindow window all c
    → IsWindow window (all ++ recorded (e ∷ [])) (perform e c)
unfolding perform record_skip clear_pause reload record_result push
perform-IsWindow window all (Event.result now b) c h v =
    let kept : (push b c).results ≡ drop (length (all ++ b ∷ []) - window) (all ++ b ∷ []) =
      rw (v.same, v.holds) (push-results window all b) in
    elim (Bool-cases (leb 5 (length (push b c).results) && over_threshold (push b c))) [
      | inl trips ↦ rw trips (record { same = v.same; holds = kept })
      | inr calm ↦ rw calm (record { same = v.same; holds = kept })
    ]
perform-IsWindow window all Event.skip c h v =
    rw append-nil (record { same = v.same; holds = v.holds })
perform-IsWindow window all Event.clear c h v =
    rw append-nil (record { same = v.same; holds = v.holds })
perform-IsWindow window all Event.restart c h v =
    rw append-nil
      (record { same = v.same; holds = rw (v.same, v.holds) (latest-drop window all h) })

recorded-cons : (e : Event) (es : List Event) → recorded (e ∷ es) ≡ recorded (e ∷ []) ++ recorded es
recorded-cons (Event.result now b) es = refl
recorded-cons Event.skip es = refl
recorded-cons Event.clear es = refl
recorded-cons Event.restart es = refl

perform_all-IsWindow :
    (window : ℕ) (all : List Bool) (es : List Event) (c : CircuitBreaker)
    → 0 < window
    → IsWindow window all c
    → IsWindow window (all ++ recorded es) (perform_all es c)
unfolding perform_all
perform_all-IsWindow window all [] c h v = rw append-nil v
perform_all-IsWindow window all (e ∷ es) c h v =
    let joined : (all ++ recorded (e ∷ [])) ++ recorded es ≡ all ++ recorded (e ∷ es) =
      append_assoc all (recorded (e ∷ [])) (recorded es)
      ∙ ap (λ t. all ++ t) (sym (recorded-cons e es)) in
    subst (λ t. IsWindow window t (perform_all es (perform e c))) joined
      (perform_all-IsWindow window (all ++ recorded (e ∷ [])) es (perform e c) h
        (perform-IsWindow window all e c h v))

-- A breaker with a window above 0 and no results holds, after any results, skips, cleared pauses
-- and restarts from its file, exactly the latest results, as many as the window has room for, in
-- order: a skip or a restart loses none and counts for none.
pub perform_all-results :
    (es : List Event) (c : CircuitBreaker)
    → 0 < c.window_size
    → c.results ≡ []
    → (perform_all es c).results ≡ latest c.window_size (recorded es)
perform_all-results es c h fresh =
    let none_over : 0 - c.window_size ≡ 0 = omega arith in
    let empty : List Bool = [] in
    let nothing : empty ≡ drop (0 - c.window_size) empty = rw none_over refl in
    let kept : (perform_all es c).results
        ≡ drop (length (recorded es) - c.window_size) (recorded es) =
      (perform_all-IsWindow c.window_size [] es c h
        (record { same = refl; holds = fresh ∙ nothing })).holds in
    let some_kept : (c.window_size == 0) ≡ false = ground arith in rw some_kept kept
