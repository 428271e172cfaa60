-- ===== src/PassK/Boxed/Braces.antt =====
-- Which text `extract_boxed` returns: src/icepick/processing/pass_at_k/scoring.py.
use mathlib.Core.List.{append_assoc, append-nil}
use icepick.Prelude.{
  ℕ, suc, ◌+◌, ◌-◌, ◌≡◌, refl, sym, ap, ◌∙◌, false, none, some, [], ◌∷◌, ◌++◌, arith, ◌==◌,
}
use icepick.PassK.Boxed.{
  Text, marker, open_brace, close_brace, from_last, walk, strip, take_braces, find_braces,
  extract_boxed,
}

-- Every brace has its partner.
pub data Balanced : Text → Type 0 where
  nil : Balanced []
  plain :
      {c : ℕ} {w : Text}
      → (c == open_brace) ≡ false
      → (c == close_brace) ≡ false
      → Balanced w
      → Balanced (c ∷ w)
  group : {v w : Text} → Balanced v → Balanced w → Balanced (open_brace ∷ (v ++ close_brace ∷ w))

walk-plain :
    (d c : ℕ) (w : Text)
    → (c == open_brace) ≡ false
    → (c == close_brace) ≡ false
    → walk (suc d) (c ∷ w) ≡ c ∷ walk (suc d) w
unfolding walk
walk-plain d c w h k = rw (h, k) refl

walk-open_brace :
    (d : ℕ) (w : Text) → walk (suc d) (open_brace ∷ w) ≡ open_brace ∷ walk (suc (suc d)) w
unfolding walk
walk-open_brace d w =
    let no_zero : (suc d == 0) ≡ false = ground arith in
    let deeper : suc d + 1 ≡ suc (suc d) = omega arith in rw (no_zero, deeper) refl

walk-close_brace :
    (d : ℕ) (w : Text) → walk (suc (suc d)) (close_brace ∷ w) ≡ close_brace ∷ walk (suc d) w
unfolding walk
walk-close_brace d w =
    let not_one : (suc (suc d) == 1) ≡ false = ground arith in
    let back : suc (suc d) - 1 ≡ suc d = omega arith in rw (not_one, back) refl

-- Inside a brace, a balanced text is copied and leaves the depth as it was.
walk-Balanced :
    (d : ℕ) (w rest : Text) → Balanced w → walk (suc d) (w ++ rest) ≡ w ++ walk (suc d) rest
walk-Balanced d _ rest nil = refl
walk-Balanced d _ rest (plain {c} {w} h k b) =
    walk-plain d c (w ++ rest) h k ∙ ap (λ t. c ∷ t) (walk-Balanced d w rest b)
walk-Balanced d _ rest (group {v} {w} b e) =
    ap (λ t. walk (suc d) (open_brace ∷ t)) (append_assoc v (close_brace ∷ w) rest)
    ∙ walk-open_brace d (v ++ (close_brace ∷ (w ++ rest)))
    ∙ ap (λ t. open_brace ∷ t)
        (walk-Balanced (suc d) v (close_brace ∷ (w ++ rest)) b
          ∙ ap (λ t. v ++ t)
              (walk-close_brace d (w ++ rest)
                ∙ ap (λ t. close_brace ∷ t) (walk-Balanced d w rest e))
          ∙ sym (append_assoc v (close_brace ∷ w) (walk (suc d) rest)))

-- The walk from a brace returns what stands before its partner.
walk-group : (w post : Text) → Balanced w → walk 0 (open_brace ∷ (w ++ close_brace ∷ post)) ≡ w
unfolding walk
walk-group w post b = walk-Balanced 0 w (close_brace ∷ post) b ∙ append-nil w

-- A marker that is not followed by another one is the last, whatever stands before it.
from_last-append : (pre t u : Text) → from_last t ≡ some u → from_last (pre ++ t) ≡ some u
unfolding from_last
from_last-append [] t u h = h
from_last-append (c ∷ pre) t u h = rw (from_last-append pre t u h) refl

-- The last marker of a text, when a balanced group follows it at once and no marker comes after it,
-- gives the text of the group without the white space around it.
pub extract_boxed-Balanced :
    (pre w post : Text)
    → Balanced w
    → from_last (98 ∷ 111 ∷ 120 ∷ 101 ∷ 100 ∷ open_brace ∷ (w ++ close_brace ∷ post)) ≡ none
    → extract_boxed (pre ++ (marker ++ (open_brace ∷ (w ++ close_brace ∷ post)))) ≡ some (strip w)
unfolding extract_boxed find_braces take_braces
extract_boxed-Balanced pre w post b last =
    let t : Text = open_brace ∷ (w ++ close_brace ∷ post) in
    let here : from_last (marker ++ t) ≡ some (marker ++ t) = unfold from_last in rw last refl in
    ap find_braces (from_last-append pre (marker ++ t) (marker ++ t) here)
    ∙ ap (λ x. some (strip x)) (walk-group w post b)
