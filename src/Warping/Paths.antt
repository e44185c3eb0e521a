-- ===== src/Warping/Paths.antt =====
-- The path that negative_dtw returns.
use ctranslate.Prelude.{
  ℕ, zero, suc, ◌+◌, ◌-◌, ◌*◌, ◌<◌, ◌≤◌, length, All, flat_lt, ◌==◌, Bool, true, false, ◌&&◌, ◌||◌,
  List, [], ◌∷◌, ◌++◌, Run, done, fail, runtime_error, ◌≡◌, ◌⊎◌, refl, sym, ap, ◌∙◌, arith, inl,
  inr, append_assoc, append-nil,
}
use ctranslate.Prelude.Reading.{All-get_or}
use ctranslate.Padding.Padder.{ℤ, pos}
use ctranslate.Warping.Defs.{
  Move, both, up, left, unset, with_border, backtrace_rounds, backtrace, fill_columns, new_tables,
  negative_dtw,
}
use ctranslate.Warping.Tables.{is_both, is_up, is_left, allowed, move-allowed}

-- A path from the first row and column to row i and column j, with steps to the next row, the next
-- column, or both.
pub data Warps : ℕ → ℕ → List (ℤ × ℤ) → Type 0 where
  start : Warps 0 0 ((pos 0, pos 0) ∷ [])
  diagonal :
      {i j : ℕ} {p : List (ℤ × ℤ)}
      → Warps i j p
      → Warps (suc i) (suc j) (p ++ (pos (suc i), pos (suc j)) ∷ [])
  down :
      {i j : ℕ} {p : List (ℤ × ℤ)} → Warps i j p → Warps (suc i) j (p ++ (pos (suc i), pos j) ∷ [])
  right :
      {i j : ℕ} {p : List (ℤ × ℤ)} → Warps i j p → Warps i (suc j) (p ++ (pos i, pos (suc j)) ∷ [])

both_of : (t : Move) → is_both t ≡ true → t ≡ both
both_of unset h = cc
both_of both h = refl
both_of up h = cc
both_of left h = cc

up_of : (t : Move) → is_up t ≡ true → t ≡ up
up_of unset h = cc
up_of both h = cc
up_of up h = refl
up_of left h = cc

left_of : (t : Move) → is_left t ≡ true → t ≡ left
left_of unset h = cc
left_of both h = cc
left_of up h = cc
left_of left h = refl

any_of :
    (t : Move) → (is_both t || (is_up t || is_left t)) ≡ true → (t ≡ both) ⊎ ((t ≡ up) ⊎ (t ≡ left))
any_of unset h = cc
any_of both h = inl refl
any_of up h = inr (inl refl)
any_of left h = inr (inr refl)

with_border-inside :
    (trace : ℕ → ℕ → Move) (n m i j : ℕ)
    → with_border trace n m (suc i) (suc j) ≡ trace (suc i) (suc j)
unfolding with_border
with_border-inside trace n m i j = ground arith

module _ (trace : ℕ → ℕ → Move) where
  -- Where a move leads to.
  abbrev goes : ℕ → Move → ℕ → ℕ → List (ℤ × ℤ) → Run (List (ℤ × ℤ))
  goes rounds t i j path = elim t as (λ _. Run (List (ℤ × ℤ))) [
    | both ↦ backtrace_rounds rounds trace i j path
    | up ↦ backtrace_rounds rounds trace i (suc j) path
    | left ↦ backtrace_rounds rounds trace (suc i) j path
    | unset ↦ fail runtime_error
  ]

  backtrace_rounds-goes :
      (rounds : ℕ) (t : Move) (i j : ℕ) (path : List (ℤ × ℤ))
      → trace (suc i) (suc j) ≡ t
      → backtrace_rounds (suc rounds) trace (suc i) (suc j) path
        ≡ goes rounds t i j ((pos i, pos j) ∷ path)
  unfolding backtrace_rounds
  backtrace_rounds-goes rounds t i j path h =
      let e : ((suc i == 0) && (suc j == 0)) ≡ false = ground arith in
      let a : suc i - 1 ≡ i = omega arith in
      let b : suc j - 1 ≡ j = omega arith in
      let path' = (pos i, pos j) ∷ path in
      λ k. elim (e k) as (λ _. Run (List (ℤ × ℤ))) [
        | true ↦ done path
        | false ↦ elim (h k) as (λ _. Run (List (ℤ × ℤ))) [
          | both ↦ backtrace_rounds rounds trace (a k) (b k) path'
          | up ↦ backtrace_rounds rounds trace (a k) (suc j) path'
          | left ↦ backtrace_rounds rounds trace (suc i) (b k) path'
          | unset ↦ fail runtime_error
        ]
      ]

  backtrace_rounds-corner :
      (rounds : ℕ) (path : List (ℤ × ℤ)) → backtrace_rounds (suc rounds) trace 0 0 path ≡ done path
  unfolding backtrace_rounds
  backtrace_rounds-corner rounds path = refl

  module _ (n m : ℕ)
      (ok : (i j : ℕ) → i < n → j < m → allowed i j (trace (suc i) (suc j)) ≡ true) where
    backtrace_rounds-Warps :
        (rounds i j : ℕ) (path : List (ℤ × ℤ))
        → i < n
        → j < m
        → i + j + 2 ≤ rounds
        → (p : List (ℤ × ℤ)) × (backtrace_rounds rounds trace (suc i) (suc j) path
            ≡ done (p ++ path))
          × Warps i j p
    backtrace_rounds-Warps zero i j path h k l = ground (arith, l)
    backtrace_rounds-Warps (suc zero) i j path h k l = ground (arith, l)
    backtrace_rounds-Warps (suc (suc rounds)) zero zero path h k l = (
      (pos 0, pos 0) ∷ [],
      backtrace_rounds-goes (suc rounds) both 0 0 path (both_of _ (ok 0 0 h k))
          ∙ backtrace_rounds-corner rounds _,
      start,
    )
    backtrace_rounds-Warps (suc (suc rounds)) zero (suc j) path h k l =
        let (p, e, w) =
          backtrace_rounds-Warps (suc rounds) zero j ((pos 0, pos (suc j)) ∷ path) h
            (omega (arith, k)) (omega (arith, l)) in
        (
          p ++ (pos 0, pos (suc j)) ∷ [],
          backtrace_rounds-goes (suc rounds) left 0 (suc j) path (left_of _ (ok 0 (suc j) h k))
              ∙ e
              ∙ ap done (sym (append_assoc p ((pos 0, pos (suc j)) ∷ []) path)),
          right w,
        )
    backtrace_rounds-Warps (suc (suc rounds)) (suc i) zero path h k l =
        let (p, e, w) =
          backtrace_rounds-Warps (suc rounds) i zero ((pos (suc i), pos 0) ∷ path)
            (omega (arith, h)) k (omega (arith, l)) in
        (
          p ++ (pos (suc i), pos 0) ∷ [],
          backtrace_rounds-goes (suc rounds) up (suc i) 0 path (up_of _ (ok (suc i) 0 h k))
              ∙ e
              ∙ ap done (sym (append_assoc p ((pos (suc i), pos 0) ∷ []) path)),
          down w,
        )
    backtrace_rounds-Warps (suc (suc rounds)) (suc i) (suc j) path h k l =
        let end : ℤ × ℤ = (pos (suc i), pos (suc j)) in
        let here = backtrace_rounds-goes (suc rounds) in
        elim (any_of (trace (suc (suc i)) (suc (suc j))) (ok (suc i) (suc j) h k)) [
          | inl t ↦
              let (p, e, w) =
                backtrace_rounds-Warps (suc rounds) i j (end ∷ path) (omega (arith, h))
                  (omega (arith, k)) (omega (arith, l)) in
              (
                p ++ end ∷ [],
                here both (suc i) (suc j) path t
                    ∙ e
                    ∙ ap done (sym (append_assoc p (end ∷ []) path)),
                diagonal w,
              )
          | inr (inl t) ↦
              let (p, e, w) =
                backtrace_rounds-Warps (suc rounds) i (suc j) (end ∷ path) (omega (arith, h)) k
                  (omega (arith, l)) in
              (
                p ++ end ∷ [],
                here up (suc i) (suc j) path t ∙ e ∙ ap done (sym (append_assoc p (end ∷ []) path)),
                down w,
              )
          | inr (inr t) ↦
              let (p, e, w) =
                backtrace_rounds-Warps (suc rounds) (suc i) j (end ∷ path) h (omega (arith, k))
                  (omega (arith, l)) in
              (
                p ++ end ∷ [],
                here left (suc i) (suc j) path t
                    ∙ e
                    ∙ ap done (sym (append_assoc p (end ∷ []) path)),
                right w,
              )
        ]

module _ {Cost : Type 0} (inf zero_cost : Cost) (lt : Cost → Cost → Bool)
    (gain : Cost → Cost → Cost) (IsEntry : Cost → Type 0) (IsSum : ℕ → Cost → Type 0)
    (zero-IsSum : IsSum 0 zero_cost)
    (gain-IsSum : (k : ℕ) (v c : Cost) → IsEntry v → IsSum k c → IsSum (suc k) (gain v c))
    (limit : ℕ) (below_inf : (k : ℕ) (c : Cost) → k ≤ limit → IsSum k c → lt c inf ≡ true)
    (inf_least : (c : Cost) → lt inf c ≡ false) where
  -- For a matrix with at least one row and one column, negative_dtw returns, without the exception of
  -- backtrace, a path from the first row and column to the last ones in which each step goes to the next
  -- row, the next column, or both. The sums of at most as many entries of the matrix as it has rows
  -- are less than infinity, and infinity is less than no cost.
  pub negative_dtw-Warps :
      (x : List Cost) (n m : ℕ)
      → suc n ≤ limit
      → length x ≡ suc n * suc m
      → All IsEntry x
      → (p : List (ℤ × ℤ)) × (negative_dtw inf zero_cost lt gain x (suc n) (suc m) ≡ done p)
        × Warps n m p
  unfolding negative_dtw backtrace
  negative_dtw-Warps x n m few size entries =
      let trace =
        (fill_columns inf zero_cost lt gain x (suc n) (suc m) (suc m) 1
          (new_tables inf zero_cost lt gain)).trace in
      let (p, e, w) =
        backtrace_rounds-Warps (with_border trace (suc n) (suc m)) (suc n) (suc m)
          (λ i j h k.
            ap (allowed i j) (with_border-inside trace (suc n) (suc m) i j)
            ∙ move-allowed inf zero_cost lt gain IsEntry IsSum zero-IsSum gain-IsSum limit below_inf
                inf_least x (suc n) (suc m) i j few
                (λ i j h k.
                  All-get_or IsEntry x (i * suc m + j) zero_cost entries
                    (omega (arith, size, flat_lt i (suc n) j (suc m) h k)))
                h k)
          (suc (suc n + suc m)) n m [] (omega arith) (omega arith) (omega arith) in
      (p, e ∙ ap done (append-nil p), w)
