-- ===== src/PassK/Boxed.antt =====
-- The answer in a model's output: `extract_boxed` of src/icepick/processing/pass_at_k/scoring.py. A
-- text is the list of its code points.
pub mod Braces
use icepick.Prelude.{
  ℕ, zero, suc, ◌+◌, ◌-◌, Bool, true, false, ◌||◌, ◌&&◌, Option, none, some, List, [], ◌∷◌, ◌++◌,
  ◌==◌, if◌then◌else◌,
}
use icepick.Batcher.Identity.{is_space}

abbrev pub Text : Type 0
Text = List ℕ

-- "\\boxed"
abbrev pub marker : Text
marker = 92 ∷ 98 ∷ 111 ∷ 120 ∷ 101 ∷ 100 ∷ []

-- "{" and "}"
abbrev pub open_brace : ℕ
open_brace = 123

abbrev pub close_brace : ℕ
close_brace = 125

abbrev pub starts_with : Text → Text → Bool
starts_with [] text = true
starts_with (c ∷ cs) [] = false
starts_with (c ∷ cs) (d ∷ ds) = c == d && starts_with cs ds

abbrev pub this_or : Option Text → Bool → Text → Option Text
this_or (some later) here text = some later
this_or none true text = some text
this_or none false text = none

-- `text[text.rfind(marker):]`, if the marker occurs.
unfoldable pub from_last : Text → Option Text
from_last [] = none
from_last (c ∷ text) =
    let later = from_last text in this_or later (starts_with marker (c ∷ text)) (c ∷ text)

-- `text[text.find("{"):]`, if there is one.
unfoldable pub from_brace : Text → Option Text
from_brace [] = none
from_brace (c ∷ text) =
    let later = from_brace text in if c == open_brace then some (c ∷ text) else later

-- The loop that tracks the depth. It starts at a "{", so that the depth is never 0 at a "}".
unfoldable pub walk : ℕ → Text → Text
walk depth [] = []
walk depth (c ∷ text) =
    let outer = walk 1 text in
    let inner = walk (depth + 1) text in
    let back = walk (depth - 1) text in
    let next = walk depth text in
    if c == open_brace
    then (if depth == 0 then outer else c ∷ inner)
    else if c == close_brace
    then (if depth == 1 then [] else c ∷ back)
    else c ∷ next

unfoldable pub strip_left : Text → Text
strip_left [] = []
strip_left (c ∷ text) = let rest = strip_left text in if is_space c then rest else c ∷ text

abbrev snoc_unless : Bool → ℕ → Text → Text
snoc_unless true c [] = []
snoc_unless _ c text = c ∷ text

unfoldable pub strip_right : Text → Text
strip_right [] = []
strip_right (c ∷ text) = let rest = strip_right text in snoc_unless (is_space c) c rest

-- `text.strip()`
unfoldable pub strip : Text → Text
unfolding strip_left strip_right
strip text = strip_right (strip_left text)

abbrev pub take_braces : Option Text → Option Text
unfolding walk strip
take_braces none = none
take_braces (some text) = some (strip (walk 0 text))

abbrev pub find_braces : Option Text → Option Text
unfolding from_brace
find_braces none = none
find_braces (some text) = take_braces (from_brace text)

-- `extract_boxed`
unfoldable pub extract_boxed : Text → Option Text
unfolding from_last
extract_boxed text = find_braces (from_last text)
