-- ===== src/MemoryCause/Distance/Table.antt =====
-- internal/service/memory_cause.go: every row of the table holds the edit distances of the prefixes.
use mathlib.Core.List.{reverse, reverse-cons, append_assoc, append-nil}
use mathlib.Core.Path.{ap₂}
use wordbit_advanced.Prelude.{ℕ, ◌+◌, ◌≡◌, List, [], ◌∷◌, ◌++◌, arith, length, refl, sym, ap, ◌∙◌}
use wordbit_advanced.MemoryCause.{next_row, step_row, rows, count_up, last_or}
use wordbit_advanced.MemoryCause.Distance.Edits.{edit, edit-nil, edit-cons, edit-nil_left}

-- The distances of `ra` to `rb` and its extensions by `b`; prefixes are held in reverse.
abbrev tail_row : List ℕ → List ℕ → List ℕ → List ℕ
tail_row ra rb [] = []
tail_row ra rb (y ∷ b) = edit ra (y ∷ rb) ∷ tail_row ra (y ∷ rb) b

abbrev pub full_row : List ℕ → List ℕ → List ℕ → List ℕ
full_row ra rb b = edit ra rb ∷ tail_row ra rb b

next_row-tail_row :
    (x : ℕ) (ra rb b : List ℕ)
    → next_row x (edit ra rb) (edit (x ∷ ra) rb) b (tail_row ra rb b) ≡ tail_row (x ∷ ra) rb b
unfolding next_row
next_row-tail_row x ra rb [] = refl
next_row-tail_row x ra rb (y ∷ b) =
    rw (← edit-cons x y ra rb)
      (ap (◌∷◌ (edit (x ∷ ra) (y ∷ rb))) (next_row-tail_row x ra (y ∷ rb) b))

step_row-full_row :
    (i x : ℕ) (ra b : List ℕ)
    → i ≡ length (x ∷ ra)
    → step_row i x b (full_row ra [] b) ≡ full_row (x ∷ ra) [] b
unfolding step_row
step_row-full_row i x ra b e =
    rw (e, ← edit-nil (x ∷ ra)) (ap (◌∷◌ (edit (x ∷ ra) [])) (next_row-tail_row x ra [] b))

reverse-cons-append : (x : ℕ) (a ra : List ℕ) → reverse a ++ (x ∷ ra) ≡ reverse (x ∷ a) ++ ra
reverse-cons-append x a ra =
    sym (ap (λ l. l ++ ra) (reverse-cons x a) ∙ append_assoc (reverse a) (x ∷ []) ra)

rows-full_row :
    (i : ℕ) (a ra b : List ℕ)
    → i ≡ length ra
    → rows i a b (full_row ra [] b) ≡ full_row (reverse a ++ ra) [] b
unfolding rows
rows-full_row i [] ra b e = refl
rows-full_row i (x ∷ a) ra b e =
    ap (rows (i + 1) a b) (step_row-full_row (i + 1) x ra b (omega arith))
    ∙ rows-full_row (i + 1) a (x ∷ ra) b (omega arith)
    ∙ ap (λ l. full_row l [] b) (reverse-cons-append x a ra)

count_up-full_row : (b rb : List ℕ) (j : ℕ) → j ≡ length rb → count_up j b ≡ full_row [] rb b
unfolding count_up
count_up-full_row [] rb j e = ap (λ n. n ∷ []) (e ∙ sym (edit-nil_left rb))
count_up-full_row (y ∷ b) rb j e =
    ap₂ ◌∷◌ (e ∙ sym (edit-nil_left rb)) (count_up-full_row b (y ∷ rb) (j + 1) (omega arith))

last_or-full_row :
    (d : ℕ) (ra rb b : List ℕ) → last_or d (full_row ra rb b) ≡ edit ra (reverse b ++ rb)
last_or-full_row d ra rb [] = refl
last_or-full_row d ra rb (y ∷ b) =
    last_or-full_row (edit ra rb) ra (y ∷ rb) b ∙ ap (edit ra) (reverse-cons-append y b rb)

-- The last cell of the last row is the distance of the two reversed strings.
pub table-edit :
    (a b : List ℕ) → last_or 0 (rows 0 a b (count_up 0 b)) ≡ edit (reverse a) (reverse b)
table-edit a b =
    ap (λ row. last_or 0 (rows 0 a b row)) (count_up-full_row b [] 0 refl)
    ∙ ap (last_or 0) (rows-full_row 0 a [] b refl)
    ∙ last_or-full_row 0 (reverse a ++ []) [] b
    ∙ ap₂ edit (append-nil (reverse a)) (append-nil (reverse b))
