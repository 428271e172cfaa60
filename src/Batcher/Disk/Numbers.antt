-- ===== src/Batcher/Disk/Numbers.antt =====
-- Reading, writing and numbering the directories of src/icepick/batcher/'s batches.
use icepick.Prelude.{
  ℕ, ◌<◌, ◌≡◌, refl, some, [], ◌∷◌, arith, ◌==◌, All, Option-cases, inl, inr, if◌then◌else◌,
}
use icepick.Batcher.Disk.{BatchDir, Batches, dir?, put_dir, max_batch_number}

pub dir?-put_dir :
    (n m : ℕ) (d : BatchDir) (bs : Batches)
    → dir? m (put_dir n d bs) ≡ (if n == m then some d else dir? m bs)
unfolding dir? put_dir
dir?-put_dir n m d [] = refl
dir?-put_dir n m d ((k, e) ∷ bs) = ground (arith, dir?-put_dir n m d bs)

-- Writing a directory twice leaves what the second write says.
pub put_dir-put_dir :
    (n : ℕ) (d e : BatchDir) (bs : Batches) → put_dir n e (put_dir n d bs) ≡ put_dir n e bs
unfolding put_dir
put_dir-put_dir n d e [] = ground arith
put_dir-put_dir n d e ((k, x) ∷ bs) = ground (arith, put_dir-put_dir n d e bs)

-- Every batch number is below a bound.
abbrev pub IsBelow : ℕ → Batches → Type 0
IsBelow b bs = All (λ e. e.0 < b) bs

pub max_batch_number-lt :
    (b n : ℕ) (bs : Batches) → IsBelow b bs → max_batch_number bs ≡ some n → n < b
unfolding max_batch_number
max_batch_number-lt b n [] h e = cc
max_batch_number-lt b n ((m, d) ∷ bs) h e = elim (Option-cases (max_batch_number bs)) [
  | inl empty ↦ ground arith
  | inr (k, largest) ↦ ground (arith, max_batch_number-lt b k bs h.1 largest)
]

pub put_dir-IsBelow :
    (b n : ℕ) (d : BatchDir) (bs : Batches) → n < b → IsBelow b bs → IsBelow b (put_dir n d bs)
unfolding put_dir
put_dir-IsBelow b n d [] l h = (l, tt)
put_dir-IsBelow b n d ((m, e) ∷ bs) l h = ground (arith, put_dir-IsBelow b n d bs l h.1)

-- The largest number is the one that was just put in, when all others were smaller.
pub max_batch_number-put_dir :
    (n : ℕ) (d : BatchDir) (bs : Batches)
    → IsBelow n bs
    → max_batch_number (put_dir n d bs) ≡ some n
unfolding max_batch_number put_dir
max_batch_number-put_dir n d [] h = refl
max_batch_number-put_dir n d ((m, e) ∷ bs) h = ground (arith, max_batch_number-put_dir n d bs h.1)
