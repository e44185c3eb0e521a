-- ===== src/Padding/Padder.antt =====
-- class Padder. An index of `flat_to_padded` is `flat_offset + length - 1` for the padding of a
-- sequence, which is -1 when the first sequences are empty: `negsuc 0`.
use mathlib.Core.Option
use ctranslate.Prelude.{
  ℕ, zero, suc, ◌+◌, ◌*◌, ◌-◌, ◌/◌, ◌%◌, max, ◌==◌, Bool, true, false, not, ◌||◌, Option, none,
  some, List, [], ◌∷◌, ◌++◌, length, replicate, iota, map, is_nil, get_or, if◌then◌else◌, Run, done,
  fail, timeout, invalid_argument, and_then,
}
use ctranslate.Padding.Gather.{gather_op}

pub data ℤ : Type 0 where
  pos : ℕ → ℤ
  negsuc : ℕ → ℤ

-- n - 1.
abbrev pub pred : ℕ → ℤ
pred zero = negsuc 0
pred (suc n) = pos n

-- Members of Padder; an empty list of indices is an empty StorageView.
pub record Padder : Type 0 where
  pub batch_size : ℕ
  pub max_time : ℕ
  pub padded_to_flat : List ℕ
  pub flat_to_padded : List ℤ

unfoldable pub max_element : List ℕ → ℕ
max_element [] = 0
max_element (l ∷ ls) = max l (max_element ls)

unfoldable pub has_padding : ℕ → List ℕ → Bool
has_padding time [] = false
has_padding time (l ∷ ls) = not (l == time) || has_padding time ls

-- The loop over the batch, for each list of indices.
unfoldable pub flat_indices : ℕ → ℕ → List ℕ → List ℕ
flat_indices time padded_offset [] = []
flat_indices time padded_offset (l ∷ ls) =
    iota padded_offset l ++ flat_indices time (padded_offset + time) ls

unfoldable pub padded_indices : ℕ → ℕ → List ℕ → List ℤ
padded_indices time flat_offset [] = []
padded_indices time flat_offset (l ∷ ls) =
    (map pos (iota flat_offset l) ++ replicate (time - l) (pred (flat_offset + l)))
    ++ padded_indices time (flat_offset + l) ls

-- The loop that repeats the last index up to a multiple, on fuel.
unfoldable pub pad_to_multiple : ℕ → ℕ → List ℕ → Run (List ℕ)
pad_to_multiple zero multiple is = timeout
pad_to_multiple (suc fuel) multiple is = elim (length is % multiple == 0) [
  | true ↦ done is
  | false ↦ pad_to_multiple fuel multiple (is ++ get_or is (length is - 1) 0 ∷ [])
]

unfoldable pub time_of : Option ℕ → List ℕ → ℕ
unfolding max_element
time_of none lengths = max_element lengths
time_of (some time) lengths = time

-- The constructor. `none` stands for a negative `max_time`. The StorageView of the second list is
-- of the size `padded_offset`, and throws when the list has another one, as it has when a length is
-- over `max_time`; the first list has the size `flat_offset` by its loops.
unfoldable pub new_padder : List ℕ → Option ℕ → ℕ → Run Padder
unfolding has_padding time_of flat_indices padded_indices pad_to_multiple
new_padder lengths max_time multiple =
    let time = time_of max_time lengths in
    if has_padding time lengths
    then and_then (pad_to_multiple (multiple + 1) multiple (flat_indices time 0 lengths)) (λ is.
      if length (padded_indices time 0 lengths) == length lengths * time
      then done (record {
        batch_size = length lengths;
        max_time = time;
        padded_to_flat = is;
        flat_to_padded = padded_indices time 0 lengths;
      })
      else fail invalid_argument)
    else done (record {
      batch_size = length lengths;
      max_time = time;
      padded_to_flat = [];
      flat_to_padded = [];
    })

-- The rows at the indices of `flat_to_padded`; a negative one reads out of bounds.
unfoldable pub indices : List ℤ → Option (List ℕ)
indices [] = some []
indices (pos i ∷ is) = Option.map (◌∷◌ i) (indices is)
indices (negsuc i ∷ is) = none

-- A storage by its shape and its rows, where a row has the dimensions that stay.
pub record Storage {ℓ} (A : Type ℓ) : Type ℓ where
  pub shape : List ℕ
  pub rows : List A

-- The shape of `x` with its first dimensions replaced.
abbrev pub merged : List ℕ → ℕ → Option (List ℕ)
merged (batch ∷ time ∷ dims) n = some (n ∷ dims)
merged _ n = none

abbrev pub divided : List ℕ → ℕ → ℕ → Option (List ℕ)
divided (time ∷ dims) batch n = some (batch ∷ n / batch ∷ dims)
divided [] batch n = none

abbrev pub storage {ℓ} : {A : Type ℓ} → Option (List ℕ) → Option (List A) → Option (Storage A)
storage (some s) (some r) = some (record { shape = s; rows = r })
storage none r = none
storage (some s) none = none

module _ {ℓ} {A : Type ℓ} where
  -- The gather leaves as many rows as there are indices.
  unfoldable pub remove_padding : Bool → Padder → Storage A → Option (Storage A)
  unfolding gather_op
  remove_padding on_cpu p x =
      if is_nil p.padded_to_flat
      then some x
      else storage (merged x.shape (length p.padded_to_flat))
          (gather_op on_cpu x.rows p.padded_to_flat)

  unfoldable pub add_padding : Bool → Padder → Storage A → Option (Storage A)
  unfolding gather_op indices
  add_padding on_cpu p x =
      if is_nil p.flat_to_padded then some x else elim (indices p.flat_to_padded) [
        | none ↦ none
        | some is ↦
            storage (divided x.shape p.batch_size (length p.flat_to_padded))
              (gather_op on_cpu x.rows is)
      ]
