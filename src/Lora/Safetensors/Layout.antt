-- ===== src/Lora/Safetensors/Layout.antt =====
-- Where the bytes of a file of src/loratrain/src/loratrain/gguf_to_hf.py stand.
use icepick.Prelude.{
  ℕ, zero, suc, ◌+◌, ◌/◌, ◌-◌, ◌<◌, ◌≡◌, refl, sym, ap, ◌∙◌, String, false, Option, none, some, [],
  ◌∷◌, ◌++◌, length, take, drop, length-append, drop-length, drop-add, arith, ltb, str_eq, eq_iff,
  if◌then◌else◌, Bool-cases, inl, inr,
}
use mathlib.Core.List.{append_assoc}
use mathlib.Core.Path.{subst}
use icepick.Prelude.Dict.{Dict, lookup, lookup-erase, keys, contains, contains-member}
use icepick.Prelude.Sets.{IsDistinct}
use icepick.Lora.Safetensors.{
  Bytes, Tensor, Entry, Header, insert_sorted, sort_names, place, or_absent, replaced, build_header,
  payload, bytes_of, value_of, limit, header, write_file, read_header,
}

-- A number that fits is read back from its bytes.
value_of-bytes_of : (count n : ℕ) → n < limit count → value_of (bytes_of count n) ≡ n
unfolding value_of bytes_of limit
value_of-bytes_of zero n h = omega arith
value_of-bytes_of (suc count) n h = omega (arith, value_of-bytes_of count (n / 256) (omega arith))

length-bytes_of : (count n : ℕ) → length (bytes_of count n) ≡ count
unfolding bytes_of
length-bytes_of zero n = refl
length-bytes_of (suc count) n = ap suc (length-bytes_of count (n / 256))

take-length : (xs ys : Bytes) → take (length xs) (xs ++ ys) ≡ xs
take-length [] ys = refl
take-length (x ∷ xs) ys = ap (λ l. x ∷ l) (take-length xs ys)

module _ {ℓ} {A : Type ℓ} where
  lookup-insert_sorted :
      (k n : String) (t : A) (d : Dict A)
      → lookup n d ≡ none
      → lookup k (insert_sorted (n, t) d) ≡ (if str_eq n k then some t else lookup k d)
  unfolding insert_sorted
  lookup-insert_sorted k n t [] h = refl
  lookup-insert_sorted k n t ((m, u) ∷ d) h =
      ground (arith, lookup-insert_sorted k n t d, eq_iff n k, eq_iff m k, eq_iff m n, eq_iff n m)

  -- Sorting the names of a dict leaves what stands under each.
  lookup-sort_names :
      (k : String) (d : Dict A) → IsDistinct (keys d) → lookup k (sort_names d) ≡ lookup k d
  unfolding sort_names
  lookup-sort_names k [] h = refl
  lookup-sort_names k ((n, t) ∷ d) h =
      lookup-insert_sorted k n t (sort_names d)
        (lookup-sort_names n d h.1 ∙ ground (arith, contains-member n d, h.0))
      ∙ ground (arith, lookup-sort_names k d h.1)

-- An entry that says where the bytes of a tensor stand in what follows the header.
pub record Locates (rest : Bytes) (t : Tensor) (e : Entry) : Type 0 where
  pub shape : e.shape ≡ t.shape
  pub end : e.end ≡ e.begin + length t.raw
  pub bytes : take (e.end - e.begin) (drop e.begin rest) ≡ t.raw

place-Locates :
    (name : String) (t : Tensor) (front : Bytes) (ts : Dict Tensor)
    → lookup name ts ≡ some t
    → (e : Entry) × (lookup name (place (length front) ts) ≡ some e)
      × Locates (front ++ payload ts) t e
unfolding place payload
place-Locates name t front [] h = cc (h)
place-Locates name t front ((n, u) ∷ ts) h = elim (Bool-cases (str_eq n name)) [
  | inl here ↦
      let same : u ≡ t = ground arith in
      (
        record { shape = u.shape; begin = length front; end = length front + length u.raw },
        rw here refl,
        record {
          shape = ap (λ (x : Tensor). x.shape) same;
          end = ap (λ (x : Tensor). length front + length x.raw) same;
          bytes =
              let width : length front + length u.raw - length front ≡ length u.raw = omega arith in
              rw width (
                rw (drop-length front (u.raw ++ payload ts))
                  (take-length u.raw (payload ts) ∙ ap (λ (x : Tensor). x.raw) same));
        },
      )
  | inr there ↦
      let (e, found, located) = place-Locates name t (front ++ u.raw) ts (ground arith) in
      (
        e,
        rw there (rw (← length-append front u.raw) found),
        rw (← append_assoc front u.raw (payload ts)) located,
      )
]

written_file :
    (text made : Bytes)
    → length text < limit 8
    → (if ltb (length text) (limit 8) then some made else none) ≡ some made
written_file text made h = ground arith

-- The metadata leave the entries under all other names.
lookup-replaced :
    (name : String) (metadata : Dict String) (es : Dict Entry)
    → str_eq "__metadata__" name ≡ false
    → lookup name (replaced metadata es) ≡ lookup name es
lookup-replaced name [] es h = refl
lookup-replaced name (m ∷ ms) es h = ground (arith, lookup-erase "__metadata__" name es, h)

named :
    (name : String) (t : Tensor) (specs : Dict Tensor)
    → contains "__metadata__" specs ≡ false
    → lookup name specs ≡ some t
    → str_eq "__metadata__" name ≡ false
named name t specs usual found = ground (arith, eq_iff "__metadata__" name)

module _ (encode : Header → Bytes) (decode : Bytes → Option Header) where
  -- A file of its parts is read as its header, and the data come behind.
  read_header-parts :
      (h : Header) (rest : Bytes)
      → length (encode h) < limit 8
      → decode (encode h) ≡ some h
      → (read_header encode decode (bytes_of 8 (length (encode h)) ++ (encode h ++ rest))
          ≡ header h (8 + length (encode h)))
        × (drop (8 + length (encode h)) (bytes_of 8 (length (encode h)) ++ (encode h ++ rest))
            ≡ rest)
  unfolding read_header
  read_header-parts h rest short round =
      let n = length (encode h) in
      let prefix = bytes_of 8 n in
      let file = prefix ++ (encode h ++ rest) in
      let eight : length prefix ≡ 8 = length-bytes_of 8 n in
      let taken : take 8 file ≡ prefix =
        subst (λ k. take k file ≡ prefix) eight (take-length prefix (encode h ++ rest)) in
      let dropped : drop 8 file ≡ encode h ++ rest =
        subst (λ k. drop k file ≡ encode h ++ rest) eight (drop-length prefix (encode h ++ rest)) in
      let size : value_of prefix ≡ n = value_of-bytes_of 8 n short in
      (
        rw taken (
            rw (eight, size, dropped)
              (rw (take-length (encode h) rest) (ground (arith, round, ap value_of taken, size)))),
        drop-add 8 n file ∙ ap (drop n) dropped ∙ drop-length (encode h) rest,
      )

  -- When the names of the tensors are distinct, none of them is `__metadata__`, and JSON writes the header
  -- in fewer than 2 ^ 64 bytes and gives it back, then the file is written and is read without an error,
  -- and the header that is read has an entry for each tensor with its shape, whose offsets are as far
  -- apart as the tensor has bytes and delimit exactly these bytes in what follows the header.
  pub write_file-reads :
      (specs : Dict Tensor) (metadata : Dict String) (name : String) (t : Tensor)
      → IsDistinct (keys specs)
      → contains "__metadata__" specs ≡ false
      → length (encode (build_header specs metadata).0) < limit 8
      → decode (encode (build_header specs metadata).0) ≡ some (build_header specs metadata).0
      → lookup name specs ≡ some t
      → (file : Bytes) × (h : Header) × (start : ℕ) × (e : Entry) × (write_file encode decode specs
            metadata
          ≡ some file)
        × (read_header encode decode file ≡ header h start)
        × (lookup name h.entries ≡ some e)
        × Locates (drop start file) t e
  unfolding write_file build_header
  write_file-reads specs metadata name t distinct usual short round found =
      let ordered = sort_names specs in
      let h : Header = record {
        entries = replaced metadata (place 0 ordered);
        metadata = or_absent metadata;
      } in
      let made = bytes_of 8 (length (encode h)) ++ (encode h ++ payload ordered) in
      let (reads, rest) = read_header-parts h (payload ordered) short round in
      let (e, there, located) =
        place-Locates name t [] ordered (lookup-sort_names name specs distinct ∙ found) in
      (
        made,
        h,
        8 + length (encode h),
        e,
        written_file (encode h) made short,
        reads,
        lookup-replaced name metadata (place 0 ordered) (named name t specs usual found) ∙ there,
        subst (λ l. Locates l t e) (sym rest) located,
      )
