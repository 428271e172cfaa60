-- ===== src/Lora/Safetensors.antt =====
-- The writer of safetensors files: build_safetensors_header, write_safetensors_file,
-- read_safetensors_header and shard_tensor_names of src/loratrain/src/loratrain/gguf_to_hf.py. A tensor
-- is its shape and its bytes, which are those of its little-endian floats; `json.dumps` and `json.loads`
-- of a header are parameters.
pub mod Layout
pub mod Shards
use Prim.Native.Nat.{Ordering}
use Prim.Native.String.{compare}
use icepick.Prelude.{
  ℕ, zero, suc, ◌+◌, ◌*◌, ◌/◌, ◌%◌, ◌-◌, String, Bool, true, false, not, ◌&&◌, Option, none, some,
  List, [], ◌∷◌, ◌++◌, map, length, take, drop, ltb, ◌==◌, if◌then◌else◌,
}
use icepick.Prelude.Dict.{Dict, erase}

abbrev pub Bytes : Type 0
Bytes = List ℕ

pub record Tensor : Type 0 where
  pub shape : List ℕ
  pub raw : Bytes

-- An entry of a header; its dtype is always F32.
pub record Entry : Type 0 where
  pub shape : List ℕ
  pub begin : ℕ
  pub end : ℕ

pub record Header : Type 0 where
  pub entries : Dict Entry
  pub metadata : Option (Dict String)

abbrev pub str_le : String → String → Bool
str_le a b = elim (compare a b) [ Ordering.gt ↦ false | _ ↦ true ]

-- `sorted` over the names of a dict.
unfoldable pub insert_sorted {ℓ} : {A : Type ℓ} → String × A → Dict A → Dict A
insert_sorted x [] = x ∷ []
insert_sorted x (y ∷ ys) = if str_le x.0 y.0 then x ∷ y ∷ ys else y ∷ insert_sorted x ys

unfoldable pub sort_names {ℓ} : {A : Type ℓ} → Dict A → Dict A
unfolding insert_sorted
sort_names [] = []
sort_names (x ∷ xs) = insert_sorted x (sort_names xs)

-- The loop over the names: an entry for each, from `offset` on.
unfoldable pub place : ℕ → Dict Tensor → Dict Entry
place offset [] = []
place offset ((name, t) ∷ ts) =
    (name, record { shape = t.shape; begin = offset; end = offset + length t.raw })
    ∷ place (offset + length t.raw) ts

-- `if metadata:`
abbrev pub or_absent : Dict String → Option (Dict String)
or_absent [] = none
or_absent (m ∷ ms) = some (m ∷ ms)

-- `header["__metadata__"] = ...` replaces the entry of a tensor of this name.
abbrev pub replaced : Dict String → Dict Entry → Dict Entry
replaced [] es = es
replaced (m ∷ ms) es = erase "__metadata__" es

-- The header, and the tensors in the order of their bytes.
unfoldable pub build_header : Dict Tensor → Dict String → Header × Dict Tensor
unfolding place sort_names
build_header specs metadata =
    let ordered = sort_names specs in
    (
      record { entries = replaced metadata (place 0 ordered); metadata = or_absent metadata },
      ordered,
    )

-- The bytes of the tensors, back to back.
unfoldable pub payload : Dict Tensor → Bytes
payload [] = []
payload ((name, t) ∷ ts) = t.raw ++ payload ts

-- `count` bytes of a number, the lowest first, and the number of such bytes.
unfoldable pub bytes_of : ℕ → ℕ → Bytes
bytes_of zero n = []
bytes_of (suc count) n = (n % 256) ∷ bytes_of count (n / 256)

unfoldable pub value_of : Bytes → ℕ
value_of [] = 0
value_of (b ∷ bs) = b + 256 * value_of bs

-- The first number that `count` bytes do not hold.
unfoldable pub limit : ℕ → ℕ
limit zero = 1
limit (suc count) = 256 * limit count

-- `read_safetensors_header` returns the header and where the data start, or raises.
pub data Read : Type 0 where
  header : Header → ℕ → Read
  truncated_prefix truncated_header not_json : Read

module _ (encode : Header → Bytes) (decode : Bytes → Option Header) where
  -- `write_safetensors_file`: the bytes of the file; `struct.pack("<Q", n)` raises from 2 ^ 64 on.
  unfoldable pub write_file : Dict Tensor → Dict String → Option Bytes
  unfolding build_header payload bytes_of limit
  write_file specs metadata =
      let (h, ordered) = build_header specs metadata in
      if ltb (length (encode h)) (limit 8)
      then some (bytes_of 8 (length (encode h)) ++ (encode h ++ payload ordered))
      else none

  -- `read_safetensors_header`
  unfoldable pub read_header : Bytes → Read
  unfolding value_of
  read_header file =
      if not (length (take 8 file) == 8)
      then truncated_prefix
      else let n = value_of (take 8 file) in
        let text = take n (drop 8 file) in
        if not (length text == n)
        then truncated_header
        else elim (decode text) [ none ↦ not_json | some h ↦ header h (8 + n) ]

module _ (sizes : String → ℕ) (most : ℕ) where
  -- The loop of `shard_tensor_names`, from a current shard of `n` bytes on.
  unfoldable pub shard_from : List String → ℕ → List String → List (List String)
  shard_from current n [] = current ∷ []
  shard_from [] n (name ∷ names) = shard_from (name ∷ []) (n + sizes name) names
  shard_from (c ∷ cs) n (name ∷ names) =
      let closed = (c ∷ cs) ∷ shard_from (name ∷ []) (sizes name) names in
      let extended = shard_from ((c ∷ cs) ++ name ∷ []) (n + sizes name) names in
      if ltb most (n + sizes name) then closed else extended

  -- `shard_tensor_names`; `sizes` is a dict that has every name of the list.
  unfoldable pub shard_tensor_names : List String → List (List String)
  unfolding shard_from
  shard_tensor_names names = shard_from [] 0 names
