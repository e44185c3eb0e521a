-- ===== src/Storage/Squeezing.antt =====
-- Squeezing undoes the insertion of a dimension.
use ctranslate.Prelude.{
  ℕ, zero, suc, ◌-◌, ◌≤◌, false, List, [], ◌∷◌, length, get_or, ltb, lt→ltb, le→leb, ok, ◌≡◌, refl,
  ap, ◌∙◌, arith,
}
use ctranslate.Padding.Padder.{ℤ, pos, negsuc}
use ctranslate.Storage.Defs.{Storage, gives}
use ctranslate.Storage.Shapes.{
  insert_at, erase_at, expand_at, expand_dims, squeeze, guard_dim, wrap_dim, dim_of,
}

length-insert_at : (ds : List ℕ) (i x : ℕ) → length (insert_at ds i x) ≡ suc (length ds)
unfolding insert_at
length-insert_at ds zero x = refl
length-insert_at [] (suc i) x = refl
length-insert_at (d ∷ ds) (suc i) x = ap suc (length-insert_at ds i x)

get_or-insert_at : (ds : List ℕ) (i x : ℕ) → i ≤ length ds → get_or (insert_at ds i x) i 0 ≡ x
unfolding insert_at
get_or-insert_at ds zero x h = refl
get_or-insert_at [] (suc i) x h = absurd (omega arith)
get_or-insert_at (d ∷ ds) (suc i) x h = get_or-insert_at ds i x (omega arith)

erase_at-insert_at : (ds : List ℕ) (i x : ℕ) → i ≤ length ds → erase_at (insert_at ds i x) i ≡ ds
unfolding insert_at erase_at
erase_at-insert_at ds zero x h = refl
erase_at-insert_at [] (suc i) x h = absurd (omega arith)
erase_at-insert_at (d ∷ ds) (suc i) x h = ap (◌∷◌ d) (erase_at-insert_at ds i x (omega arith))

-- The dimensions at which one can be inserted, those from the end included.
abbrev pub IsPlace : ℤ → ℕ → Type 0
IsPlace (pos d) rank = d ≤ rank
IsPlace (negsuc n) rank = n ≤ rank

abbrev place : ℤ → ℕ → ℕ
place (pos d) rank = d
place (negsuc n) rank = rank - n

place-le : (d : ℤ) (rank : ℕ) → IsPlace d rank → place d rank ≤ rank
place-le (pos d) rank h = h
place-le (negsuc n) rank h = omega arith

guarded :
    (d : ℤ) (rank : ℕ)
    → IsPlace d rank
    → guard_dim (wrap_dim d (suc rank)) (suc rank) ≡ ok (place d rank)
unfolding guard_dim wrap_dim
guarded (pos d) rank h = rw (lt→ltb d (suc rank) (omega arith)) refl
guarded (negsuc n) rank h = rw (lt→ltb n (suc rank) (omega arith)) (
    let e : suc rank - suc n ≡ rank - n = omega arith in
    rw e (rw (lt→ltb (rank - n) (suc rank) (omega arith)) refl))

abbrev with_one : ℕ → Storage → Storage
with_one k s = record s { shape = insert_at s.shape k 1 }

expanded_at : (k : ℕ) (s : Storage) → k ≤ length s.shape → expand_at k s ≡ gives (with_one k s)
unfolding expand_at
expanded_at k s h = let e : ltb (length s.shape) k ≡ false = ground (arith, h) in rw e refl

expanded :
    (d : ℤ) (s : Storage)
    → IsPlace d (length s.shape)
    → expand_dims d s ≡ gives (with_one (place d (length s.shape)) s)
unfolding expand_dims
expanded (pos d) s h = expanded_at d s h
expanded (negsuc n) s h =
    rw (le→leb n (length s.shape) h) (expanded_at (length s.shape - n) s (omega arith))

module _ (d : ℤ) (s : Storage) (h : IsPlace d (length s.shape)) where
  abbrev inserted : Storage
  inserted = with_one (place d (length s.shape)) s

  found :
      guard_dim (wrap_dim d (length inserted.shape)) (length inserted.shape)
      ≡ ok (place d (length s.shape))
  found =
      ap (λ n. guard_dim (wrap_dim d n) n) (length-insert_at s.shape (place d (length s.shape)) 1)
      ∙ guarded d (length s.shape) h

  one : get_or inserted.shape (place d (length s.shape)) 0 ≡ 1
  one = get_or-insert_at s.shape (place d (length s.shape)) 1 (place-le d (length s.shape) h)

  squeezed : squeeze d inserted ≡ gives s
  unfolding squeeze
  squeezed =
      rw (found, squeeze)
        (rw (one, squeeze)
          (ap (λ l. gives (record s { shape = l }))
            (erase_at-insert_at s.shape (place d (length s.shape)) 1
              (place-le d (length s.shape) h))))

  dim_inserted : dim_of inserted d ≡ ok 1
  unfolding dim_of
  dim_inserted = rw (found, dim_of) (ap ok one)

  -- A dimension that is inserted at a place that there is, counted from the start or from the end, has
  -- size 1 at that place, and squeezing it gives the storage back.
  pub squeeze-expand_dims :
      (s' : Storage) × (expand_dims d s ≡ gives s')
      × (dim_of s' d ≡ ok 1)
      × (squeeze d s' ≡ gives s)
  squeeze-expand_dims = (inserted, expanded d s h, dim_inserted, squeezed)
