-- ===== src/Tests/Lora.antt =====
-- Runs of gguf_to_hf.py and build_dataset.py of src/loratrain/src/loratrain/.
use icepick.Prelude.{
  arith, ℕ, ◌≡◌, refl, String, Option, none, some, true, List, [], ◌∷◌, drop, length, str_eq,
  if◌then◌else◌,
}
use icepick.Prelude.Dict.{Dict, lookup}
use icepick.Lora.Safetensors.{
  Bytes, Tensor, Entry, Header, build_header, limit, write_file, read_header, header,
  shard_tensor_names,
}
use icepick.Lora.Weights.{
  Example, capk, inverse, dedupe_examples, apply_weight_policy, is_honored, stamp_weight,
}
use icepick.Lora.Weights.Groups.{rows_of}
use icepick.Lora.Weights.Honored.{quota, apply_weight_policy-honored}
use icepick.Lora.Safetensors.Layout.{Locates, write_file-reads}
use icepick.Lora.Safetensors.Shards.{IsSplit, shard_tensor_names-IsSplit}

abbrev specs : Dict Tensor
specs =
    ("norm", record { shape = 1 ∷ []; raw = 0 ∷ 0 ∷ 128 ∷ 63 ∷ [] })
    ∷ ("embed", record { shape = 2 ∷ []; raw = 1 ∷ 2 ∷ 3 ∷ 4 ∷ 5 ∷ 6 ∷ 7 ∷ 8 ∷ [] })
    ∷ []

abbrev written : Header
written = record {
  entries =
      ("embed", record { shape = 2 ∷ []; begin = 0; end = 8 })
      ∷ ("norm", record { shape = 1 ∷ []; begin = 8; end = 12 })
      ∷ [];
  metadata = none;
}

-- A format that knows one header only.
abbrev dumps : Header → Bytes
dumps h = 123 ∷ 125 ∷ []

abbrev loads : Bytes → Option Header
loads text = some written

abbrev file : Bytes
file =
    2 ∷ 0 ∷ 0 ∷ 0 ∷ 0 ∷ 0 ∷ 0 ∷ 0 ∷ 123 ∷ 125 ∷ 1 ∷ 2 ∷ 3 ∷ 4 ∷ 5 ∷ 6 ∷ 7 ∷ 8 ∷ 0 ∷ 0 ∷ 128 ∷ 63
    ∷ []

write_file-reads_example :
    (bytes : Bytes) × (h : Header) × (start : ℕ) × (e : Entry) × (write_file dumps loads specs []
      ≡ some bytes)
    × (read_header dumps loads bytes ≡ header h start)
    × (lookup "norm" h.entries ≡ some e)
    × Locates (drop start bytes) (record { shape = 1 ∷ []; raw = 0 ∷ 0 ∷ 128 ∷ 63 ∷ [] }) e
unfolding build_header
write_file-reads_example =
    write_file-reads dumps loads specs [] "norm"
      (record { shape = 1 ∷ []; raw = 0 ∷ 0 ∷ 128 ∷ 63 ∷ [] }) (refl, (refl, tt)) refl
      (unfold limit in omega arith) refl refl

write_test : write_file dumps loads specs [] ≡ some file
unfolding write_file
write_test = refl

abbrev size_of : String → ℕ
size_of name = if str_eq name "big" then 9 else 4

shard_tensor_names-IsSplit_example :
    IsSplit size_of 8
      ("a" ∷ "b" ∷ "big" ∷ "c" ∷ [])
      (shard_tensor_names size_of 8 ("a" ∷ "b" ∷ "big" ∷ "c" ∷ []))
shard_tensor_names-IsSplit_example =
    shard_tensor_names-IsSplit size_of 8 ("a" ∷ "b" ∷ "big" ∷ "c" ∷ [])

shard_test :
    shard_tensor_names size_of 8 ("a" ∷ "b" ∷ "big" ∷ "c" ∷ [])
    ≡ (("a" ∷ "b" ∷ []) ∷ ("big" ∷ []) ∷ ("c" ∷ []) ∷ [])
unfolding shard_tensor_names
shard_test = refl

-- Three traces of one record, one of them twice, and one of another.
abbrev trace : String → String → Example
trace uid rollout_uid = record { uid = uid; rollout_uid = rollout_uid; text = "..."; weight = none }

abbrev traces : List Example
traces = trace "u" "r0" ∷ trace "u" "r1" ∷ trace "v" "s0" ∷ trace "u" "r0" ∷ trace "u" "r2" ∷ []

abbrev plain_hash : String → String
plain_hash text = text

apply_weight_policy-honored_example :
    (kept : List Example) × (apply_weight_policy plain_hash 7 capk 2 (dedupe_examples traces)
      ≡ some kept)
    × (is_honored capk 2 kept ≡ true)
    × ((uid : String)
        → length (rows_of uid kept) ≡ quota capk 2 (length (rows_of uid (dedupe_examples traces))))
apply_weight_policy-honored_example =
    apply_weight_policy-honored plain_hash 7 capk 2 traces
      (refl, (refl, (refl, (refl, (refl, tt))))) refl

capk_test :
    apply_weight_policy plain_hash 7 capk 2 (dedupe_examples traces)
    ≡ some (trace "u" "r0" ∷ trace "u" "r1" ∷ trace "v" "s0" ∷ [])
unfolding apply_weight_policy dedupe_examples
capk_test = refl

inverse_test :
    apply_weight_policy plain_hash 7 inverse 1 (trace "u" "r0" ∷ trace "u" "r1" ∷ [])
    ≡ some (stamp_weight 2 (trace "u" "r0") ∷ stamp_weight 2 (trace "u" "r1") ∷ [])
unfolding apply_weight_policy
inverse_test = refl
