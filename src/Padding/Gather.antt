-- ===== src/Padding/Gather.antt =====
-- class Gather of src/ops/gather.cc on the first axis: data is the list of its rows, and a row of any
-- type. A read out of bounds is undefined in the source, and `none` here.
use mathlib.Core.Option
use ctranslate.Prelude.{
  ℕ, suc, ltb, leb, ◌==◌, Bool, true, false, ◌&&◌, Option, none, some, List, [], ◌∷◌, length,
  get_elem?, set, take, if◌then◌else◌,
}

-- std::adjacent_find with std::greater_equal finds nothing.
unfoldable pub strictly_increasing : List ℕ → Bool
strictly_increasing [] = true
strictly_increasing (x ∷ []) = true
strictly_increasing (x ∷ y ∷ xs) = ltb x y && strictly_increasing (y ∷ xs)

module _ {ℓ} {A : Type ℓ} where
  -- `Gather::compute`: each row of the output is a copy of the row of the data that its index names.
  unfoldable pub gather : List A → List ℕ → Option (List A)
  gather rows [] = some []
  gather rows (i ∷ is) = elim (get_elem? rows i) [
    | none ↦ none
    | some row ↦ Option.map (◌∷◌ row) (gather rows is)
  ]

  -- The loop of `gather_batch_inplace` from the position `i` on.
  unfoldable pub gather_batch_inplace : List A → ℕ → List ℕ → Option (List A)
  gather_batch_inplace rows i [] = some rows
  gather_batch_inplace rows i (index ∷ is) = elim (index == i) [
    | true ↦ gather_batch_inplace rows (suc i) is
    | false ↦ elim (get_elem? rows index) [
      | none ↦ none
      | some row ↦ gather_batch_inplace (set rows i row) (suc i) is
    ]
  ]

  unfoldable pub support_gather_batch_inplace : Bool → List A → List ℕ → Bool
  unfolding strictly_increasing
  support_gather_batch_inplace on_cpu rows is =
      on_cpu && leb (length is) (length rows) && strictly_increasing is

  -- `Gather::operator()` on data that it replaces, with the resize that ends it.
  unfoldable pub gather_op : Bool → List A → List ℕ → Option (List A)
  unfolding gather gather_batch_inplace support_gather_batch_inplace
  gather_op on_cpu rows is =
      if support_gather_batch_inplace on_cpu rows is
      then Option.map (take (length is)) (gather_batch_inplace rows 0 is)
      else gather rows is
