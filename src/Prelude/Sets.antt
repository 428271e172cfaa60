-- ===== src/Prelude/Sets.antt =====
-- Python's `set` of texts, as a list with no text twice.
use Prim.Native.Nat.{◌+◌, ◌≤◌}
use Prim.Native.String.{String}
use mathlib.Core.Path.{◌≡◌, refl}
use mathlib.Core.Bool.{Bool, true, false, ◌||◌}
use mathlib.Core.List.{List, [], ◌∷◌}
use native.Mathlib.Omega.{arith}
use icepick.Prelude.Tests.{if◌then◌else◌, str_eq, eq_iff}
use icepick.Prelude.Lists.{length, All}

-- `x in s`
abbrev pub member : String → List String → Bool
member x [] = false
member x (y ∷ s) = str_eq y x || member x s

-- `s.discard(x)`
abbrev pub discard : String → List String → List String
discard x [] = []
discard x (y ∷ s) = if str_eq y x then discard x s else y ∷ discard x s

-- `s.add(x)`
abbrev pub add : String → List String → List String
add x s = if member x s then s else x ∷ s

abbrev pub IsDistinct : List String → Type 0
IsDistinct [] = Unit
IsDistinct (x ∷ s) = (member x s ≡ false) × IsDistinct s

pub member-discard :
    (x y : String) (s : List String)
    → member y (discard x s) ≡ (if str_eq x y then false else member y s)
member-discard x y [] = ground arith
member-discard x y (z ∷ s) =
    ground (arith, member-discard x y s, eq_iff x y, eq_iff z x, eq_iff z y)

pub member-add : (x y : String) (s : List String) → member y (add x s) ≡ (str_eq x y || member y s)
member-add x y s = ground (arith, eq_iff x y)

pub discard_absent : (x : String) (s : List String) → member x s ≡ false → discard x s ≡ s
discard_absent x [] h = refl
discard_absent x (y ∷ s) h = ground (arith, discard_absent x s)

pub discard-IsDistinct : (x : String) (s : List String) → IsDistinct s → IsDistinct (discard x s)
discard-IsDistinct x [] h = tt
discard-IsDistinct x (y ∷ s) h = ground (arith, discard-IsDistinct x s, member-discard x y s)

pub length-discard :
    (x : String) (s : List String)
    → member x s ≡ true
    → IsDistinct s
    → length (discard x s) + 1 ≡ length s
length-discard x [] h d = ground arith
length-discard x (y ∷ s) h d = ground (arith, length-discard x s, discard_absent x s, eq_iff y x)

pub length-discard_le : (x : String) (s : List String) → length (discard x s) ≤ length s
length-discard_le x [] = omega arith
length-discard_le x (y ∷ s) = ground (arith, length-discard_le x s)

pub All-discard {ℓ} :
    (P : String → Type ℓ) (x : String) (s : List String) → All P s → All P (discard x s)
All-discard P x [] h = tt
All-discard P x (y ∷ s) h = ground (arith, All-discard P x s h.1)

-- What holds of the items of a set passes to a predicate that it implies away from `x`.
pub All_away {ℓ κ} :
    (P : String → Type ℓ) (Q : String → Type κ) (x : String) (s : List String)
    → ((y : String) → str_eq y x ≡ false → P y → Q y)
    → member x s ≡ false
    → All P s
    → All Q s
All_away P Q x [] f h a = tt
All_away P Q x (y ∷ s) f h a = (f y (ground arith) a.0, All_away P Q x s f (ground arith) a.1)
