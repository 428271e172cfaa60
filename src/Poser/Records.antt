-- ===== src/Poser/Records.antt =====
-- Records and verdicts: src/icepick/processing/poser/base.py. A record is a JSON object whose values
-- are texts; SHA-256 in hexadecimal is a parameter.
use Prim.Native.String.{◌++◌, slice}
use icepick.Prelude.{String, Bool, true, false, not, List, [], ◌∷◌, map, str_eq, if◌then◌else◌}
use icepick.Prelude.Dict.{Dict, lookup, insert, first_field, or_empty}

abbrev pub Record : Type 0
Record = Dict String

-- `record.get("uid")` of a prepared record.
abbrev pub uid_of : Record → String
uid_of r = or_empty (lookup "uid" r)

-- The canonical statuses.
pub data Status : Type 0 where
  well_posed ill_posed defer error : Status

-- `PoserVerdict`, without its score, its model and its payloads.
pub record Verdict : Type 0 where
  pub uid : String
  pub source : String
  pub status : Status

abbrev pub is_error : Status → Bool
is_error error = true
is_error _ = false

abbrev pub is_well_posed : Status → Bool
is_well_posed well_posed = true
is_well_posed _ = false

module _ (sha256 : String → String) where
  -- `compute_uid`
  unfoldable pub compute_uid : String → String → String
  compute_uid source statement = slice (sha256 (source ++ "\u{1f}" ++ statement)) 0 32

  unfoldable pub with_uid : Record → Record
  unfolding compute_uid first_field
  with_uid r =
      if str_eq (uid_of r) ""
      then insert "uid"
          (compute_uid (or_empty (lookup "source" r)) (
            or_empty
              (first_field (λ s. not (str_eq s "")) ("statement" ∷ "question" ∷ "prompt" ∷ []) r)))
          r
      else r

  -- `inject_uid`
  unfoldable pub inject_uid : List Record → List Record
  unfolding with_uid
  inject_uid records = map with_uid records
