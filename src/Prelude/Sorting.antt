-- ===== src/Prelude/Sorting.antt =====
-- Sorting by insertion, for the tests: what std::sort is taken to do.
use Prim.Native.Nat.{ℕ}
use mathlib.Core.Logic.{inl, inr}
use mathlib.Core.Bool.{Bool, true, false}
use mathlib.Core.List.{List, [], ◌∷◌, Perm}
use mathlib.Core.List.Perm
use ctranslate.Prelude.Tests.{Bool-cases}

unfoldable pub insert_by : (ℕ → ℕ → Bool) → ℕ → List ℕ → List ℕ
insert_by before x [] = x ∷ []
insert_by before x (y ∷ ys) = elim (before y x) [
  | true ↦ y ∷ insert_by before x ys
  | false ↦ x ∷ y ∷ ys
]

unfoldable pub sort_by : (ℕ → ℕ → Bool) → List ℕ → List ℕ
unfolding insert_by
sort_by before [] = []
sort_by before (x ∷ xs) = insert_by before x (sort_by before xs)

insert_by-perm :
    (before : ℕ → ℕ → Bool) (x : ℕ) (xs : List ℕ) → Perm (insert_by before x xs) (x ∷ xs)
unfolding insert_by
insert_by-perm before x [] = Perm.rfl
insert_by-perm before x (y ∷ ys) = elim (Bool-cases (before y x)) [
  | inl t ↦
      rw (t, insert_by) (Perm.trans (Perm.cons y (insert_by-perm before x ys)) (Perm.swap x y ys))
  | inr t ↦ rw (t, insert_by) Perm.rfl
]

pub sort_by-perm : (before : ℕ → ℕ → Bool) (xs : List ℕ) → Perm (sort_by before xs) xs
unfolding sort_by
sort_by-perm before [] = Perm.rfl
sort_by-perm before (x ∷ xs) =
    Perm.trans (insert_by-perm before x (sort_by before xs)) (Perm.cons x (sort_by-perm before xs))
