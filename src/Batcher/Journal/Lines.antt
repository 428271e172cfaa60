-- ===== src/Batcher/Journal/Lines.antt =====
-- How a journal's bytes fall into complete lines and a torn tail: `readline` in
-- src/icepick/batcher/journal.py.
use icepick.Prelude.{
  ℕ, ◌≡◌, inl, inr, refl, ap, ◌∙◌, true, false, List, [], ◌∷◌, ◌++◌, All, arith, ◌==◌,
  if◌then◌else◌, Bool-cases,
}
use icepick.Batcher.Journal.{Bytes, lines_of, add_byte, ends_with_newline}

abbrev put : ℕ → List Bytes × Bytes → List Bytes × Bytes
put c ([], t) = ([], c ∷ t)
put c (k ∷ ks, t) = ((c ∷ k) ∷ ks, t)

abbrev put_newline : ℕ → List Bytes × Bytes → List Bytes × Bytes
put_newline c (ks, t) = ((c ∷ []) ∷ ks, t)

-- The complete lines of a text, and what follows the last newline.
pub cut : Bytes → List Bytes × Bytes
cut [] = ([], [])
cut (c ∷ cs) = let r = cut cs in if c == 10 then put_newline c r else put c r

abbrev pub joined : List Bytes → Bytes
joined [] = []
joined (k ∷ ks) = k ++ joined ks

abbrev pub IsComplete : Bytes → Type 0
IsComplete k = ends_with_newline k ≡ true

-- No byte of the text is a newline.
abbrev pub IsTail : Bytes → Type 0
IsTail t = All (λ c. (c == 10) ≡ false) t

put-joined :
    (c : ℕ) (r : List Bytes × Bytes) → joined (put c r).0 ++ (put c r).1 ≡ c ∷ (joined r.0 ++ r.1)
put-joined c ([], t) = refl
put-joined c (k ∷ ks, t) = refl

pub joined-cut : (a : Bytes) → joined (cut a).0 ++ (cut a).1 ≡ a
unfolding cut
joined-cut [] = refl
joined-cut (c ∷ cs) = elim (Bool-cases (c == 10)) [
  | inl newline ↦ rw newline (ap (λ l. c ∷ l) (joined-cut cs))
  | inr other ↦ rw other (put-joined c (cut cs) ∙ ap (λ l. c ∷ l) (joined-cut cs))
]

put-IsTail : (c : ℕ) (r : List Bytes × Bytes) → (c == 10) ≡ false → IsTail r.1 → IsTail (put c r).1
put-IsTail c ([], t) n h = (n, h)
put-IsTail c (k ∷ ks, t) n h = h

pub cut-IsTail : (a : Bytes) → IsTail (cut a).1
unfolding cut
cut-IsTail [] = tt
cut-IsTail (c ∷ cs) = ground (arith, put-IsTail c (cut cs), cut-IsTail cs)

put-IsComplete : (c : ℕ) (r : List Bytes × Bytes) → All IsComplete r.0 → All IsComplete (put c r).0
unfolding ends_with_newline
put-IsComplete c ([], t) h = tt
put-IsComplete c ([] ∷ ks, t) h = cc (h.0)
put-IsComplete c ((k ∷ l) ∷ ks, t) h = h

pub cut-IsComplete : (a : Bytes) → All IsComplete (cut a).0
unfolding cut ends_with_newline
cut-IsComplete [] = tt
cut-IsComplete (c ∷ cs) = ground (arith, put-IsComplete c (cut cs), cut-IsComplete cs)

add_byte-append :
    (c : ℕ) (r : List Bytes × Bytes) (b : Bytes)
    → (c == 10) ≡ false
    → add_byte c (r.0 ++ lines_of (r.1 ++ b)) ≡ (put c r).0 ++ lines_of ((put c r).1 ++ b)
unfolding lines_of
add_byte-append c ([], t) b n = ground arith
add_byte-append c (k ∷ ks, t) b n = refl

-- More text behind a journal leaves its complete lines as they are and only goes on from its tail.
pub lines_of-append : (a b : Bytes) → lines_of (a ++ b) ≡ (cut a).0 ++ lines_of ((cut a).1 ++ b)
unfolding lines_of cut
lines_of-append [] b = refl
lines_of-append (c ∷ cs) b = elim (Bool-cases (c == 10)) [
  | inl newline ↦ rw newline (ap (λ ls. (c ∷ []) ∷ ls) (lines_of-append cs b))
  | inr other ↦
      rw other (ap (add_byte c) (lines_of-append cs b) ∙ add_byte-append c (cut cs) b other)
]

pub ends-tail : (t : Bytes) → IsTail t → ends_with_newline t ≡ false
unfolding ends_with_newline
ends-tail [] h = refl
ends-tail (c ∷ []) h = h.0
ends-tail (c ∷ d ∷ t) h = ends-tail (d ∷ t) h.1

-- A text without a newline is one line, and no complete one.
pub lines_of-tail : (c : ℕ) (t : Bytes) → IsTail (c ∷ t) → lines_of (c ∷ t) ≡ (c ∷ t) ∷ []
unfolding lines_of
lines_of-tail c [] h = ground arith
lines_of-tail c (d ∷ t) h = rw h.0 (ap (add_byte c) (lines_of-tail d t h.1))
