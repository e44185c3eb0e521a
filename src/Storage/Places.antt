-- ===== src/Storage/Places.antt =====
-- The offsets that index gives: row by row, within the elements, and different for different
-- indices.
use mathlib.Core.List.{reverse, reverse-cons}
use native.Mathlib.Nat.{mul_comm, mul_assoc, mul-one, one-mul, suc-mul, zero-mul}
use ctranslate.Prelude.{
  ℕ, zero, suc, ◌+◌, ◌*◌, ◌<◌, true, false, List, [], ◌∷◌, ◌++◌, length, ◌==◌, ==_iff, leb, ok, ◌≡◌,
  refl, sym, ap, ◌∙◌, arith, length-append,
}
use ctranslate.Storage.Defs.{Storage, compute_size}
use ctranslate.Storage.Shapes.{offset_from, index}

-- The place of an element, row by row.
unfoldable pub row_major : List ℕ → List ℕ → ℕ
row_major (i ∷ is) (d ∷ ds) = i * compute_size ds + row_major is ds
row_major is ds = 0

-- An index for each dimension, within it.
abbrev pub InRange : List ℕ → List ℕ → Type 0
InRange [] [] = Unit {0}
InRange [] (d ∷ ds) = ⊥
InRange (i ∷ is) [] = ⊥
InRange (i ∷ is) (d ∷ ds) = (i < d) × InRange is ds

-- One more dimension, the first, at the end of the loop.
offset_from-append :
    (xs ds : List ℕ) (i d stride offset : ℕ)
    → length xs ≡ length ds
    → offset_from (xs ++ i ∷ []) (ds ++ d ∷ []) stride offset
      ≡ offset_from xs ds stride offset + i * (stride * compute_size ds)
unfolding offset_from compute_size
offset_from-append [] [] i d stride offset e = rw (mul-one stride) refl
offset_from-append [] (y ∷ ds) i d stride offset e = absurd (omega arith)
offset_from-append (x ∷ xs) [] i d stride offset e = absurd (omega arith)
offset_from-append (x ∷ xs) (y ∷ ds) i d stride offset e =
    offset_from-append xs ds i d (stride * y) (offset + x * stride) (omega arith)
    ∙ ap (λ z. offset_from xs ds (stride * y) (offset + x * stride) + i * z)
        (mul_assoc stride y (compute_size ds))

length-reversed : (xs : List ℕ) → length (reverse xs) ≡ length xs
length-reversed [] = refl
length-reversed (x ∷ xs) =
    ap length (reverse-cons x xs)
    ∙ length-append (reverse xs) (x ∷ [])
    ∙ omega (arith, length-reversed xs)

compute_size-snoc : (ds : List ℕ) (d : ℕ) → compute_size (ds ++ d ∷ []) ≡ d * compute_size ds
unfolding compute_size
compute_size-snoc [] d = refl
compute_size-snoc (y ∷ ds) d =
    ap (◌*◌ y) (compute_size-snoc ds d)
    ∙ sym (mul_assoc y d (compute_size ds))
    ∙ ap (λ z. z * compute_size ds) (mul_comm y d)
    ∙ mul_assoc d y (compute_size ds)

compute_size-reverse : (ds : List ℕ) → compute_size (reverse ds) ≡ compute_size ds
unfolding compute_size
compute_size-reverse [] = refl
compute_size-reverse (d ∷ ds) =
    ap compute_size (reverse-cons d ds)
    ∙ compute_size-snoc (reverse ds) d
    ∙ ap (◌*◌ d) (compute_size-reverse ds)

offset_from-row_major :
    (is ds : List ℕ)
    → length is ≡ length ds
    → offset_from (reverse is) (reverse ds) 1 0 ≡ row_major is ds
unfolding offset_from row_major compute_size
offset_from-row_major [] [] e = refl
offset_from-row_major [] (d ∷ ds) e = absurd (omega arith)
offset_from-row_major (i ∷ is) [] e = absurd (omega arith)
offset_from-row_major (i ∷ is) (d ∷ ds) e =
    (λ t. offset_from (reverse-cons i is t) (reverse-cons d ds t) 1 0)
    ∙ offset_from-append (reverse is) (reverse ds) i d 1 0
        (length-reversed is ∙ omega (arith, e) ∙ sym (length-reversed ds))
    ∙ (λ t.
        offset_from-row_major is ds (omega (arith, e)) t
        + i * one-mul (compute_size (reverse ds)) t)
    ∙ ap (λ z. row_major is ds + i * z) (compute_size-reverse ds)
    ∙ omega arith

InRange-length : (is ds : List ℕ) → InRange is ds → length is ≡ length ds
InRange-length [] [] h = refl
InRange-length [] (d ∷ ds) h = absurd h
InRange-length (i ∷ is) [] h = absurd h
InRange-length (i ∷ is) (d ∷ ds) h = ap suc (InRange-length is ds h.1)

-- A row before another, with its rest.
row_lt : (i d m r : ℕ) → i < d → r < m → i * m + r < d * m
row_lt zero zero m r h k = absurd (omega arith)
row_lt zero (suc d) m r h k = omega (arith, zero-mul m, suc-mul d m)
row_lt (suc i) zero m r h k = absurd (omega arith)
row_lt (suc i) (suc d) m r h k =
    omega (arith, suc-mul i m, suc-mul d m, row_lt i d m r (omega arith) k)

row_major-lt : (is ds : List ℕ) → InRange is ds → row_major is ds < compute_size ds
unfolding row_major compute_size
row_major-lt [] [] h = omega arith
row_major-lt [] (d ∷ ds) h = absurd h
row_major-lt (i ∷ is) [] h = absurd h
row_major-lt (i ∷ is) (d ∷ ds) h =
    row_lt i d (compute_size ds) (row_major is ds) h.0 (row_major-lt is ds h.1)

same_row : (i j m r t : ℕ) → r < m → t < m → i * m + r ≡ j * m + t → (i ≡ j) × (r ≡ t)
same_row zero zero m r t h k e = (refl, omega (arith, zero-mul m, e))
same_row zero (suc j) m r t h k e = absurd (omega (arith, zero-mul m, suc-mul j m, e, h))
same_row (suc i) zero m r t h k e = absurd (omega (arith, zero-mul m, suc-mul i m, e, k))
same_row (suc i) (suc j) m r t h k e =
    let (p, q) = same_row i j m r t h k (omega (arith, suc-mul i m, suc-mul j m, e)) in
    (ap suc p, q)

row_major-injective :
    (is js ds : List ℕ)
    → InRange is ds
    → InRange js ds
    → row_major is ds ≡ row_major js ds
    → is ≡ js
unfolding row_major
row_major-injective [] [] ds h k e = refl
row_major-injective [] (j ∷ js) [] h k e = absurd k
row_major-injective [] (j ∷ js) (d ∷ ds) h k e = absurd h
row_major-injective (i ∷ is) [] [] h k e = absurd h
row_major-injective (i ∷ is) [] (d ∷ ds) h k e = absurd k
row_major-injective (i ∷ is) (j ∷ js) [] h k e = absurd h
row_major-injective (i ∷ is) (j ∷ js) (d ∷ ds) h k e =
    let (p, q) =
      same_row i j (compute_size ds) (row_major is ds) (row_major js ds) (row_major-lt is ds h.1)
        (row_major-lt js ds k.1) e in
    ap (λ z. z ∷ is) p ∙ ap (◌∷◌ j) (row_major-injective is js ds h.1 k.1 q)

module _ (s : Storage) (sized : s.size ≡ compute_size s.shape) where
  index-ok : (is : List ℕ) → InRange is s.shape → index is s ≡ ok (row_major is s.shape)
  unfolding index
  index-ok is h =
      let e : offset_from (reverse is) (reverse s.shape) 1 0 ≡ row_major is s.shape =
        offset_from-row_major is s.shape (InRange-length is s.shape h) in
      let l : (length is == length s.shape) ≡ true =
        (==_iff (length is) (length s.shape)).1 (InRange-length is s.shape h) in
      let lt : row_major is s.shape < s.size = omega (arith, sized, row_major-lt is s.shape h) in
      let b : leb s.size (row_major is s.shape) ≡ false = ground arith in
      rw (l, index) (rw (e, index) (rw b refl))

  -- On a storage with the elements of its shape, for an index for each dimension and within it:
  -- `index` gives the place of the element row by row, and it is less than the size.
  pub index-row_major :
      (is : List ℕ)
      → InRange is s.shape
      → (index is s ≡ ok (row_major is s.shape)) × (row_major is s.shape < s.size)
  index-row_major is h = (index-ok is h, omega (arith, sized, row_major-lt is s.shape h))

  -- On a storage with the elements of its shape, different indices, each within its dimension, have
  -- different offsets.
  pub index-injective :
      (is js : List ℕ) → InRange is s.shape → InRange js s.shape → index is s ≡ index js s → is ≡ js
  index-injective is js h k e =
      let p : ok (row_major is s.shape) ≡ ok (row_major js s.shape) =
        sym (index-ok is h) ∙ e ∙ index-ok js k in
      row_major-injective is js s.shape h k (cc)
