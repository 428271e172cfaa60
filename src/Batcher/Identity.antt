-- ===== src/Batcher/Identity.antt =====
-- src/icepick/batcher/identity.py: the uid, the statement key and the content hash of a journal row.
pub mod Words
use Prim.Native.Char.{Char, code}
use Prim.Native.String.{◌++◌}
use icepick.Prelude.{
  ℕ, zero, suc, String, Bool, true, false, ◌||◌, ◌&&◌, Option, none, some, List, [], ◌∷◌, leb, ◌==◌,
  if◌then◌else◌,
}

-- The `candidate` object of a journal row. A `statement` that is missing or not a text is `none`;
-- `rest` holds the keys other than `statement`, `source` and `uid`.
pub record Candidate : Type 0 where
  pub statement : Option String
  pub source : Option String
  pub uid : Option String
  pub rest : List (String × String)

-- A parsed journal row, an object. A `candidate` that is missing or no object is `none`.
pub record Row : Type 0 where
  pub candidate : Option Candidate
  pub rest : List (String × String)

-- What the functions take from hashlib, from Unicode's tables and from json: `sha256` is the hex
-- digest of a text's UTF-8, `lower` is `str.lower`, and `dumps` is `json.dumps(row, sort_keys=True)`.
pub record Primitives : Type 0 where
  pub sha256 : String → String
  pub lower : String → String
  pub dumps : Row → String

-- `text[:n]`
unfoldable pub first_chars : ℕ → String → String
first_chars zero s = String.[]
first_chars (suc n) String.[] = String.[]
first_chars (suc n) (String.◌∷◌ c s) = String.◌∷◌ c (first_chars n s)

-- The characters that `str.split()` splits at.
unfoldable pub is_space : ℕ → Bool
is_space c =
    (leb 9 c && leb c 13)
    || (leb 28 c && leb c 32)
    || c == 0x85
    || c == 0xa0
    || c == 0x1680
    || (leb 0x2000 c && leb c 0x200a)
    || c == 0x2028
    || c == 0x2029
    || c == 0x202f
    || c == 0x205f
    || c == 0x3000

-- A character in front of the words that follow it: it lengthens the first word if `joined`.
abbrev pub add_char : Bool → Char → List String → List String
add_char joined c [] = String.◌∷◌ c String.[] ∷ []
add_char joined c (w ∷ ws) = if joined then String.◌∷◌ c w ∷ ws else String.◌∷◌ c String.[] ∷ w ∷ ws

abbrev pub starts_word : String → Bool
starts_word String.[] = false
starts_word (String.◌∷◌ c s) = if is_space (code c) then false else true

-- `text.split()`
unfoldable pub split : String → List String
split String.[] = []
split (String.◌∷◌ c s) =
    let ws = split s in if is_space (code c) then ws else add_char (starts_word s) c ws

-- `" ".join(words)`
unfoldable pub join : List String → String
join [] = ""
join (w ∷ []) = w
join (w ∷ v ∷ ws) = w ++ String.◌∷◌ " " (join (v ∷ ws))

module _ (prims : Primitives) where
  -- `compute_uid`
  unfoldable pub compute_uid : String → String → String
  unfolding first_chars
  compute_uid source statement =
      first_chars 32 (prims.sha256 (source ++ String.◌∷◌ "\u{1f}" statement))

  -- `stmt_key`
  unfoldable pub stmt_key : String → String
  unfolding split join
  stmt_key statement = prims.sha256 (join (split (prims.lower statement)))

  -- `content_hash`
  unfoldable pub content_hash : Row → String
  content_hash r = prims.sha256 (prims.dumps r)
