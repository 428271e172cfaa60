-- ===== src/Scrape/Checkpoint/Lines.antt =====
-- The lines of the logs of a scrape: src/icepick/allocation/scrape/checkpoint.py.
use icepick.Prelude.{
  ◌≡◌, refl, sym, ap, ◌∙◌, String, Bool, true, false, ◌&&◌, ◌||◌, none, List, [], ◌∷◌, ◌++◌, map,
  arith, str_eq, if◌then◌else◌,
}
use mathlib.Core.List.{append-nil}
use icepick.Batcher.JsonLines.{JsonLines, Line, blank, row, malformed, junk, all_lines, append_rows}

-- No line lacks a field.
unfoldable pub is_readable {ℓ} : {A : Type ℓ} → List (Line A) → Bool
is_readable [] = true
is_readable (malformed ∷ ls) = false
is_readable (row a ∷ ls) = is_readable ls
is_readable (blank ∷ ls) = is_readable ls
is_readable (junk ∷ ls) = is_readable ls

-- The values of the rows with an id, in their order.
unfoldable pub rows_for {ℓ} : {A : Type ℓ} → String → List (Line (String × A)) → List A
rows_for id [] = []
rows_for id (row (j, a) ∷ ls) = if str_eq j id then a ∷ rows_for id ls else rows_for id ls
rows_for id (blank ∷ ls) = rows_for id ls
rows_for id (malformed ∷ ls) = rows_for id ls
rows_for id (junk ∷ ls) = rows_for id ls

-- Some row has the id.
unfoldable pub names {ℓ} : {A : Type ℓ} → String → List (Line (String × A)) → Bool
names id [] = false
names id (row (j, a) ∷ ls) = str_eq j id || names id ls
names id (blank ∷ ls) = names id ls
names id (malformed ∷ ls) = names id ls
names id (junk ∷ ls) = names id ls

pub is_readable-append {ℓ} :
    {A : Type ℓ} (xs ys : List (Line A))
    → is_readable (xs ++ ys) ≡ (is_readable xs && is_readable ys)
unfolding is_readable
is_readable-append [] ys = refl
is_readable-append (malformed ∷ xs) ys = refl
is_readable-append (row a ∷ xs) ys = is_readable-append xs ys
is_readable-append (blank ∷ xs) ys = is_readable-append xs ys
is_readable-append (junk ∷ xs) ys = is_readable-append xs ys

pub rows_for-append {ℓ} :
    {A : Type ℓ} (id : String) (xs ys : List (Line (String × A)))
    → rows_for id (xs ++ ys) ≡ rows_for id xs ++ rows_for id ys
unfolding rows_for
rows_for-append id [] ys = refl
rows_for-append id (row (j, a) ∷ xs) ys = ground (arith, rows_for-append id xs ys)
rows_for-append id (malformed ∷ xs) ys = rows_for-append id xs ys
rows_for-append id (blank ∷ xs) ys = rows_for-append id xs ys
rows_for-append id (junk ∷ xs) ys = rows_for-append id xs ys

pub names-append {ℓ} :
    {A : Type ℓ} (id : String) (xs ys : List (Line (String × A)))
    → names id (xs ++ ys) ≡ (names id xs || names id ys)
unfolding names
names-append id [] ys = refl
names-append id (row (j, a) ∷ xs) ys = ground (arith, names-append id xs ys)
names-append id (malformed ∷ xs) ys = names-append id xs ys
names-append id (blank ∷ xs) ys = names-append id xs ys
names-append id (junk ∷ xs) ys = names-append id xs ys

-- Rows that are written to a file that ends in a newline are its last lines.
pub all_lines-append_rows {ℓ} :
    {A : Type ℓ} (rs : List A) (f : JsonLines A)
    → f.tail ≡ none
    → all_lines (append_rows rs f) ≡ all_lines f ++ map row rs
all_lines-append_rows [] f h = sym (append-nil (all_lines f))
all_lines-append_rows (r ∷ rs) f h = rw h (
    append-nil (f.lines ++ row r ∷ map row rs)
    ∙ ap (λ l. l ++ row r ∷ map row rs) (sym (append-nil f.lines)))

pub tail-append_rows {ℓ} :
    {A : Type ℓ} (rs : List A) (f : JsonLines A) → f.tail ≡ none → (append_rows rs f).tail ≡ none
tail-append_rows [] f h = h
tail-append_rows (r ∷ rs) f h = refl

-- The rows that `commit` writes for the candidates of a paper.
abbrev pub tagged : {C : Type 0} → String → List C → List (String × C)
tagged id cs = map (λ c. (id, c)) cs

pub is_readable-rows : {A : Type 0} (rs : List A) → is_readable (map row rs) ≡ true
unfolding is_readable
is_readable-rows [] = refl
is_readable-rows (r ∷ rs) = is_readable-rows rs

pub rows_for-tagged :
    {C : Type 0} (id j : String) (cs : List C)
    → rows_for j (map row (tagged id cs)) ≡ (if str_eq id j then cs else [])
unfolding rows_for
rows_for-tagged id j [] = ground arith
rows_for-tagged id j (c ∷ cs) = ground (arith, rows_for-tagged id j cs)
