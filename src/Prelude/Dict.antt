-- ===== src/Prelude/Dict.antt =====
-- Python's `dict` and `set` where the program only looks keys up: an association list whose first
-- entry for a key is the current one, so that `d[k] = v` puts an entry in front.
use Prim.Native.String.{String}
use mathlib.Core.Path.{◌≡◌, refl, sym, ap, ◌∙◌}
use mathlib.Core.Bool.{Bool, true, false, ◌&&◌, ◌||◌}
use mathlib.Core.Option.{Option, none, some}
use mathlib.Core.List.{List, [], ◌∷◌, map}
use icepick.Prelude.Sets.{
  member, discard, IsDistinct, length-discard, length-discard_le, discard-IsDistinct,
}
use icepick.Prelude.Lists.{length}
use Prim.Native.Nat.{◌+◌, ◌≤◌}
use native.Mathlib.Omega.{arith}
use icepick.Prelude.Tests.{if◌then◌else◌, str_eq, eq_iff}

abbrev pub Dict {ℓ} : Type ℓ → Type ℓ
Dict V = List (String × V)

module _ {ℓ} {V : Type ℓ} where
  -- `d.get(k)`
  abbrev pub lookup : String → Dict V → Option V
  lookup k [] = none
  lookup k ((j, v) ∷ d) = if str_eq j k then some v else lookup k d

  -- `d[k] = v`
  abbrev pub insert : String → V → Dict V → Dict V
  insert k v d = (k, v) ∷ d

  abbrev pub is_some : Option V → Bool
  is_some none = false
  is_some (some _) = true

  -- `k in d`
  abbrev pub contains : String → Dict V → Bool
  contains k d = is_some (lookup k d)

  -- `d.setdefault(k, v)`
  abbrev pub set_default : String → V → Dict V → Dict V
  set_default k v d = elim (lookup k d) [ none ↦ (k, v) ∷ d | some _ ↦ d ]

  abbrev pub or_else : Option V → Option V → Option V
  or_else none b = b
  or_else (some a) b = some a

  pub lookup-set_default :
      (k j : String) (v : V) (d : Dict V)
      → lookup j (set_default k v d)
        ≡ (if str_eq k j then or_else (lookup k d) (some v) else lookup j d)
  lookup-set_default k j v d = ground (arith, eq_iff k j)

  abbrev pub keys : Dict V → List String
  keys = map (λ e. e.0)

  -- `d.pop(k, None)`
  abbrev pub erase : String → Dict V → Dict V
  erase k [] = []
  erase k ((j, v) ∷ d) = if str_eq j k then erase k d else (j, v) ∷ erase k d

  pub lookup-erase :
      (k j : String) (d : Dict V) → lookup j (erase k d) ≡ (if str_eq k j then none else lookup j d)
  lookup-erase k j [] = ground arith
  lookup-erase k j ((i, v) ∷ d) =
      ground (arith, lookup-erase k j d, eq_iff i k, eq_iff i j, eq_iff k j)

  pub keys-erase : (k : String) (d : Dict V) → keys (erase k d) ≡ discard k (keys d)
  keys-erase k [] = refl
  keys-erase k ((j, v) ∷ d) = ground (arith, keys-erase k d)

  pub contains-member : (k : String) (d : Dict V) → contains k d ≡ member k (keys d)
  contains-member k [] = refl
  contains-member k ((j, v) ∷ d) = ground (arith, contains-member k d)

  length-keys : (d : Dict V) → length (keys d) ≡ length d
  length-keys [] = refl
  length-keys (e ∷ d) = ground (arith, length-keys d)

  pub length-erase_le : (k : String) (d : Dict V) → length (erase k d) ≤ length d
  length-erase_le k d = ground (
    arith,
    length-keys d,
    length-keys (erase k d),
    ap length (keys-erase k d),
    length-discard_le k (keys d),
  )

  pub length-erase :
      (k : String) (d : Dict V)
      → contains k d ≡ true
      → IsDistinct (keys d)
      → length (erase k d) + 1 ≡ length d
  length-erase k d h i = omega (
    arith,
    length-keys d,
    length-keys (erase k d),
    ap length (keys-erase k d),
    length-discard k (keys d) (sym (contains-member k d) ∙ h) i,
  )

  pub erase-IsDistinct :
      (k : String) (d : Dict V) → IsDistinct (keys d) → IsDistinct (keys (erase k d))
  erase-IsDistinct k d h = rw (keys-erase k d) (discard-IsDistinct k (keys d) h)

-- The first of the names under which the record has a text that passes the test.
unfoldable pub first_field : (String → Bool) → List String → Dict String → Option String
first_field p [] fields = none
first_field p (name ∷ names) fields = elim (lookup name fields) [
  | none ↦ first_field p names fields
  | some text ↦ if p text then some text else first_field p names fields
]

abbrev pub or_empty : Option String → String
or_empty none = ""
or_empty (some s) = s

module _ {ℓ} {V : Type ℓ} where
  -- `d[k] = v` where the order of the keys matters: a new key comes last.
  abbrev pub set : String → V → Dict V → Dict V
  set k v [] = (k, v) ∷ []
  set k v ((j, w) ∷ d) = if str_eq j k then (j, v) ∷ d else (j, w) ∷ set k v d

  pub lookup-set :
      (k j : String) (v : V) (d : Dict V)
      → lookup j (set k v d) ≡ (if str_eq k j then some v else lookup j d)
  lookup-set k j v [] = refl
  lookup-set k j v ((i, w) ∷ d) =
      ground (arith, lookup-set k j v d, eq_iff i k, eq_iff i j, eq_iff k j)

-- A set of pairs of texts.
abbrev pub PairSet : Type 0
PairSet = List (String × String)

abbrev pub pair_in : String → String → PairSet → Bool
pair_in a b [] = false
pair_in a b ((x, y) ∷ s) = (str_eq x a && str_eq y b) || pair_in a b s
