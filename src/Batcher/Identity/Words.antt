-- ===== src/Batcher/Identity/Words.antt =====
-- The white space that `stmt_key` of src/icepick/batcher/identity.py removes.
use Prim.Native.Char.{Char, code}
use Prim.Native.String.{◌++◌}
use Prim.Native.String.append
use icepick.Prelude.{
  ◌≡◌, ◌∙◌, refl, sym, ap, String, Bool, true, false, ◌&&◌, not, List, [], ◌∷◌, All, arith,
  Bool-cases, inl, inr,
}
use icepick.Batcher.Identity.{is_space, add_char, starts_word, split, join}

abbrev no_space : String → Bool
no_space String.[] = true
no_space (String.◌∷◌ c s) = not (is_space (code c)) && no_space s

-- A text that is not empty and has no white space in it.
abbrev pub IsWord : String → Type 0
IsWord w = (starts_word w ≡ true) × (no_space w ≡ true)

add_char-false : (c : Char) (ws : List String) → add_char false c ws ≡ String.◌∷◌ c String.[] ∷ ws
add_char-false c [] = refl
add_char-false c (w ∷ ws) = refl

split-cons :
    (c : Char) (s : String)
    → is_space (code c) ≡ false
    → split (String.◌∷◌ c s) ≡ add_char (starts_word s) c (split s)
unfolding split
split-cons c s h = rw h refl

not_space : (c : Char) (s : String) → no_space (String.◌∷◌ c s) ≡ true → is_space (code c) ≡ false
not_space c s h = ground arith

tail_IsWord :
    (c d : Char) (s : String)
    → no_space (String.◌∷◌ c (String.◌∷◌ d s)) ≡ true
    → IsWord (String.◌∷◌ d s)
tail_IsWord c d s h = (ground arith, ground arith)

-- A word in front of a text that does not begin with one.
split-word :
    (w rest : String) → IsWord w → starts_word rest ≡ false → split (w ++ rest) ≡ w ∷ split rest
split-word String.[] rest h e = cc
split-word (String.◌∷◌ c String.[]) rest h e =
    rw
      (
        append.cons c String.[] rest,
        append.nil rest,
        split-cons c rest (not_space c String.[] h.1),
        e,
      )
      (add_char-false c (split rest))
split-word (String.◌∷◌ c (String.◌∷◌ d w)) rest h e =
    let inner : IsWord (String.◌∷◌ d w) = tail_IsWord c d w h.1 in
    let deep = split-word (String.◌∷◌ d w) rest inner e in
    rw
      (
        append.cons c (String.◌∷◌ d w) rest,
        split-cons c (String.◌∷◌ d w ++ rest) (not_space c (String.◌∷◌ d w) h.1),
        deep,
        append.cons d w rest,
        inner.0,
      )
      refl

append-empty : (s : String) → s ++ String.[] ≡ s
append-empty String.[] = append.nil String.[]
append-empty (String.◌∷◌ c s) =
    append.cons c s String.[] ∙ ap (λ t. String.◌∷◌ c t) (append-empty s)

split-join : (ws : List String) → All IsWord ws → split (join ws) ≡ ws
unfolding split join is_space
split-join [] h = refl
split-join (w ∷ []) h = ap split (sym (append-empty w)) ∙ split-word w String.[] h.0 refl
split-join (w ∷ v ∷ ws) h =
    split-word w (String.◌∷◌ " " (join (v ∷ ws))) h.0 refl
    ∙ ap (λ l. w ∷ l) (split-join (v ∷ ws) h.1)

add_char-AreWords :
    (joined : Bool) (c : Char) (ws : List String)
    → is_space (code c) ≡ false
    → All IsWord ws
    → All IsWord (add_char joined c ws)
add_char-AreWords joined c [] e h = ((ground arith, ground arith), tt)
add_char-AreWords true c (w ∷ ws) e h = ((ground arith, ground arith), h.1)
add_char-AreWords false c (w ∷ ws) e h = ((ground arith, ground arith), h)

-- What `text.split()` returns are words.
split-AreWords : (s : String) → All IsWord (split s)
unfolding split
split-AreWords String.[] = tt
split-AreWords (String.◌∷◌ c s) = elim (Bool-cases (is_space (code c))) [
  | inl space ↦ rw space (split-AreWords s)
  | inr other ↦ rw other (add_char-AreWords (starts_word s) c (split s) other (split-AreWords s))
]

-- The words of a text, joined by one space each, have the same words.
split-join-split : (s : String) → split (join (split s)) ≡ split s
split-join-split s = split-join (split s) (split-AreWords s)
