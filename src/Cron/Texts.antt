-- ===== src/Cron/Texts.antt =====
-- Printed cron fields as texts, under `strip` and `split` of src/swe_team/scheduler.py.
use swe_squad.Prelude.{
  ℕ, ◌≤◌, ◌≡◌, refl, sym, ap, ◌∙◌, false, List, [], ◌∷◌, ◌++◌, strip, strip_left, words_from, flush,
  arith, is_space, All,
}
use swe_squad.Cron.Digits.{show_nat, show_nat-cons, Plain}
use swe_squad.Cron.Fields.{Item, every, every_nth, span, at, show_item, show_items, show_item-Plain}
use mathlib.Core.List.{
  reverse, reverse-cons, reverse-reverse, reverse-append, append_assoc, append-nil,
}

abbrev pub Inked : List ℕ → Type 0
Inked = All (λ c. (42 ≤ c) × (c ≤ 57))

abbrev pub IsCons : List ℕ → Type 0
IsCons s = (c : ℕ) × (w : List ℕ) × (s ≡ c ∷ w)

pub Inked-append : (v w : List ℕ) → Inked v → Inked w → Inked (v ++ w)
Inked-append [] w h k = k
Inked-append (c ∷ v) w h k = (h.0, Inked-append v w h.1 k)

pub Plain-Inked : (w : List ℕ) → Plain w → Inked w
Plain-Inked [] h = tt
Plain-Inked (c ∷ w) h = ((h.0.0, h.0.1), Plain-Inked w h.1)

pub append-IsCons : (v w : List ℕ) → IsCons v → IsCons (v ++ w)
append-IsCons [] w (c, x, e) = cc
append-IsCons (d ∷ v) w h = (d, v ++ w, refl)

pub last-IsCons : (v : List ℕ) (c : ℕ) → IsCons (v ++ c ∷ [])
last-IsCons [] c = (c, [], refl)
last-IsCons (d ∷ v) c = (d, v ++ c ∷ [], refl)

pub reverse-IsCons : (s : List ℕ) → IsCons s → IsCons (reverse s)
reverse-IsCons [] (c, w, e) = cc
reverse-IsCons (d ∷ v) h = rw (reverse-cons d v) (last-IsCons (reverse v) d)

pub Inked-reverse : (w : List ℕ) → Inked w → Inked (reverse w)
Inked-reverse [] h = tt
Inked-reverse (c ∷ w) h =
    rw reverse-cons (Inked-append (reverse w) (c ∷ []) (Inked-reverse w h.1) (h.0, tt))

pub show_item-IsCons : (i : Item) → IsCons (show_item i)
unfolding show_item
show_item-IsCons every = (42, [], refl)
show_item-IsCons (every_nth n) = (42, _, refl)
show_item-IsCons (span a b) = append-IsCons (show_nat a) _ (show_nat-cons a)
show_item-IsCons (at n) = show_nat-cons n

pub show_items-IsCons : (i : Item) (is : List Item) → IsCons (show_items i is)
unfolding show_items
show_items-IsCons i [] = show_item-IsCons i
show_items-IsCons i (j ∷ is) = append-IsCons (show_item i) _ (show_item-IsCons i)

pub show_items-Inked : (i : Item) (is : List Item) → Inked (show_items i is)
unfolding show_items
show_items-Inked i [] = Plain-Inked _ (show_item-Plain i)
show_items-Inked i (j ∷ is) =
    Inked-append (show_item i) _ (Plain-Inked _ (show_item-Plain i))
      ((omega arith, omega arith), show_items-Inked j is)

pub strip_left-Inked : (a u : List ℕ) → Inked a → IsCons a → strip_left (a ++ u) ≡ a ++ u
unfolding strip_left
strip_left-Inked [] u h (c, w, e) = cc
strip_left-Inked (c ∷ a) u h k = ground arith

pub strip-between :
    (a mid b : List ℕ)
    → Inked a
    → Inked b
    → IsCons a
    → IsCons b
    → strip (a ++ (mid ++ b)) ≡ a ++ (mid ++ b)
unfolding strip
strip-between a mid b ha hb ka kb =
    let e : reverse (a ++ (mid ++ b)) ≡ reverse b ++ reverse (a ++ mid) =
      ap reverse (sym (append_assoc a mid b)) ∙ reverse-append (a ++ mid) b in
    rw
      (
        strip_left-Inked a (mid ++ b) ha ka,
        e,
        strip_left-Inked (reverse b) (reverse (a ++ mid)) (Inked-reverse b hb)
            (reverse-IsCons b kb),
        ← e,
      )
      (reverse-reverse (a ++ (mid ++ b)))

pub words_from-blank :
    (acc w rest : List ℕ)
    → Inked w
    → words_from acc (w ++ 32 ∷ rest) ≡ flush (acc ++ w) (words_from [] rest)
unfolding words_from
words_from-blank acc [] rest h = rw append-nil refl
words_from-blank acc (c ∷ w) rest h =
    let mark : is_space c ≡ false = ground arith in
    rw mark (
      words_from-blank (acc ++ c ∷ []) w rest h.1
      ∙ ap (λ x. flush x (words_from [] rest)) (append_assoc acc (c ∷ []) w))

pub words_from-end : (acc w : List ℕ) → Inked w → words_from acc w ≡ flush (acc ++ w) []
unfolding words_from
words_from-end acc [] h = rw append-nil refl
words_from-end acc (c ∷ w) h =
    let mark : is_space c ≡ false = ground arith in
    rw mark
      (words_from-end (acc ++ c ∷ []) w h.1 ∙ ap (λ x. flush x []) (append_assoc acc (c ∷ []) w))

pub flush-IsCons : (s : List ℕ) (ws : List (List ℕ)) → IsCons s → flush s ws ≡ s ∷ ws
flush-IsCons [] ws (c, w, e) = cc
flush-IsCons (d ∷ v) ws h = refl
