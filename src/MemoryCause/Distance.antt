-- ===== src/MemoryCause/Distance.antt =====
-- internal/service/memory_cause.go: `levenshteinDistance` against edit scripts, its specification.
pub mod Edits
pub mod Table
use mathlib.Core.List.{reverse, reverse-reverse}
use wordbit_advanced.Prelude.{
  ℕ, ◌≤◌, ◌≡◌, ◌⊎◌, List, [], ◌∷◌, arith, length, text_beq_iff, inl, inr, Bool-cases, true, refl,
  ap, sym, ◌∙◌, nat_beq, nat_beq_iff,
}
use wordbit_advanced.MemoryCause.{levenshtein_distance, bytes_beq}
use wordbit_advanced.MemoryCause.Distance.Edits.{
  Script, edit, edit-le, edit-Script, edit_self, edit-nil, edit-nil_left, reverse-Script,
}
use wordbit_advanced.MemoryCause.Distance.Table.{table-edit}

edit-reverse-le : (a b : List ℕ) → edit (reverse a) (reverse b) ≤ edit a b
edit-reverse-le a b = edit-le (reverse-Script (edit-Script a b))

edit-reverse : (a b : List ℕ) → edit (reverse a) (reverse b) ≡ edit a b
edit-reverse a b =
    let back : edit (reverse (reverse a)) (reverse (reverse b)) ≤ edit (reverse a) (reverse b) =
      edit-reverse-le (reverse a) (reverse b) in
    let back' : edit a b ≤ edit (reverse a) (reverse b) =
      rw (reverse-reverse a, reverse-reverse b) at back in
    omega (arith, edit-reverse-le a b)

eq_nil : (a : List ℕ) → nat_beq (length a) 0 ≡ true → a ≡ []
eq_nil [] e = refl
eq_nil (x ∷ a) e = ground arith

same_edit : (a b : List ℕ) → bytes_beq a b ≡ true → 0 ≡ edit a b
same_edit a b same = rw (← (text_beq_iff a b).0 same) (sym (edit_self a))

left_nil : (a b : List ℕ) → nat_beq (length a) 0 ≡ true → edit a b ≡ length b
left_nil a b e = rw (eq_nil a e) (edit-nil_left b)

right_nil : (a b : List ℕ) → nat_beq (length b) 0 ≡ true → edit a b ≡ length a
right_nil a b e = rw (eq_nil b e) (edit-nil a)

levenshtein_distance-edit : (a b : List ℕ) → levenshtein_distance a b ≡ edit a b
unfolding levenshtein_distance
levenshtein_distance-edit a b = elim (Bool-cases (bytes_beq a b)) [
  | inl same ↦ rw same (same_edit a b same)
  | inr differ ↦ rw differ (elim (Bool-cases (nat_beq (length a) 0)) [
    | inl e ↦ rw e (sym (left_nil a b e))
    | inr ne ↦ rw ne (elim (Bool-cases (nat_beq (length b) 0)) [
      | inl e ↦ rw e (sym (right_nil a b e))
      | inr ne' ↦ rw ne' (table-edit a b ∙ edit-reverse a b)
    ])
  ])
]

-- There is a script that turns the first string into the second and costs the distance computed.
pub levenshtein_distance-Script : (a b : List ℕ) → Script a b (levenshtein_distance a b)
levenshtein_distance-Script a b = rw (levenshtein_distance-edit a b) (edit-Script a b)

-- No script that turns the first string into the second costs less than the distance computed.
pub levenshtein_distance-le : {a b : List ℕ} {n : ℕ} → Script a b n → levenshtein_distance a b ≤ n
levenshtein_distance-le {a} {b} s = rw (levenshtein_distance-edit a b) (edit-le s)
