-- ===== src/Batching/CutLaws.antt =====
-- Where a batch is cut: nothing is lost, a batch is never empty, and it keeps to its size.
use ctranslate.Prelude.{
  ℕ, zero, suc, ◌+◌, ◌*◌, ◌^◌, ◌≤◌, ◌<◌, max, Bool, true, false, ◌&&◌, List, [], ◌∷◌, ◌++◌, All,
  length, ltb, is_nil, ◌≡◌, refl, arith, Bool-cases, ◌⊎◌, inl, inr, ap,
}
use ctranslate.Batching.Defs.{BatchType, Example, get_batch_size_increment, u64}
use ctranslate.Batching.Cut.{cut_fixed, cut_variable, cut_batch}

cut_fixed-append :
    (max_size : ℕ) (type : BatchType) (count m : ℕ) (es : List Example)
    → (cut_fixed max_size type count m es).0 ++ (cut_fixed max_size type count m es).1 ≡ es
unfolding cut_fixed
cut_fixed-append max_size type count m [] = refl
cut_fixed-append max_size type count m (e ∷ es) =
    ground (
      arith,
      cut_fixed-append max_size type (suc count) (max m (get_batch_size_increment e type)) es,
    )

cut_variable-append :
    (max_size : ℕ) (type : BatchType) (count total : ℕ) (es : List Example)
    → (cut_variable max_size type count total es).0 ++ (cut_variable max_size type count total es).1
      ≡ es
unfolding cut_variable
cut_variable-append max_size type count total [] = refl
cut_variable-append max_size type count total (e ∷ es) = ground (
  arith,
  cut_variable-append max_size type (suc count) (u64 (total + get_batch_size_increment e type)) es,
)

-- The batch and the rest are the input, in order.
pub cut_batch-append :
    (max_size : ℕ) (type : BatchType) (padding : Bool) (es : List Example)
    → (cut_batch max_size type padding es).0 ++ (cut_batch max_size type padding es).1 ≡ es
unfolding cut_batch
cut_batch-append max_size type true es = cut_fixed-append max_size type 0 0 es
cut_batch-append max_size type false es = cut_variable-append max_size type 0 0 es

-- A batch is empty only if no example is left.
pub is_nil-cut_batch :
    (max_size : ℕ) (type : BatchType) (padding : Bool) (es : List Example)
    → is_nil (cut_batch max_size type padding es).0 ≡ is_nil es
unfolding cut_batch cut_fixed cut_variable
is_nil-cut_batch max_size type true [] = refl
is_nil-cut_batch max_size type false [] = refl
is_nil-cut_batch max_size type true (e ∷ es) = refl
is_nil-cut_batch max_size type false (e ∷ es) = refl

-- The largest increment of a batch, from `m` on.
unfoldable pub longest : BatchType → ℕ → List Example → ℕ
longest type m [] = m
longest type m (e ∷ es) = longest type (max m (get_batch_size_increment e type)) es

-- A product that does not wrap and does not exceed the limit by the test is within the limit.
not_over :
    (c n max_size : ℕ) → n < 2 ^ 64 → (ltb 0 (suc c) && ltb max_size (u64 n)) ≡ false → n ≤ max_size
not_over c n max_size small t = ground arith

within : {L : ℕ} (count n m : ℕ) → m ≤ L → (count + suc n) * L < 2 ^ 64 → (count + 1) * m < 2 ^ 64
within count n m h small = grind arith

module _ (type : BatchType) (max_size : ℕ) where
  -- What the loop adds to `count` examples with the largest increment `m`.
  abbrev pub Fits : ℕ → ℕ → List Example → Type 0
  Fits count m b =
      (b ≡ []) ⊎ ((count + length b) * longest type m b ≤ max_size) ⊎ ((count ≡ 0) × (length b ≡ 1))

  Fits-cons :
      (count m : ℕ) (e : Example) (b : List Example)
      → (count + 1) * max m (get_batch_size_increment e type) < 2 ^ 64
      → (ltb 0 count && ltb max_size (u64 ((count + 1) * max m (get_batch_size_increment e type))))
        ≡ false
      → Fits (suc count) (max m (get_batch_size_increment e type)) b
      → Fits count m (e ∷ b)
  unfolding longest
  Fits-cons zero m e b small t (inl none_left) = inr (inr (refl, ground arith))
  Fits-cons (suc c) m e b small t (inl none_left) =
      inr (inl (rw none_left (not_over c _ max_size small t)))
  Fits-cons count m e b small t (inr (inl fits)) = inr (inl (omega arith))
  Fits-cons count m e b small t (inr (inr (z, one))) = absurd (ground arith)

  cut_fixed-Fits :
      (L count m : ℕ) (es : List Example)
      → (count + length es) * L < 2 ^ 64
      → m ≤ L
      → All (λ e. get_batch_size_increment e type ≤ L) es
      → Fits count m (cut_fixed max_size type count m es).0
  unfolding cut_fixed
  cut_fixed-Fits L count m [] small hm hs = inl refl
  cut_fixed-Fits L count m (e ∷ es) small hm (he, hs) =
      elim (Bool-cases (ltb 0 count && ltb max_size (u64 ((count + 1) * m')))) [
        | inl t ↦ rw t (inl refl)
        | inr t ↦ rw t (
            Fits-cons count m e _ (within {L = L} count (length es) m' (omega arith) small) t
              (cut_fixed-Fits L (suc count) m' es (grind arith) (omega arith) hs))
      ]
    where
      m' : ℕ
      m' = max m (get_batch_size_increment e type)

  -- Where the products do not wrap, a batch that is read with padding has at most `max_size` units,
  -- its longest example counted for each of its examples, or it has one example.
  pub cut_batch_sized :
      (L : ℕ) (es : List Example)
      → length es * L < 2 ^ 64
      → All (λ e. get_batch_size_increment e type ≤ L) es
      → let b = (cut_batch max_size type true es).0 in
        (length b * longest type 0 b ≤ max_size) ⊎ (length b ≤ 1)
  unfolding cut_batch
  cut_batch_sized L es small hs = elim (cut_fixed-Fits L 0 0 es (omega arith) (omega arith) hs) [
    | inl e ↦ inr (omega (arith, ap length e))
    | inr (inl fits) ↦ inl (omega arith)
    | inr (inr (z, one)) ↦ inr (omega arith)
  ]
