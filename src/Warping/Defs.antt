-- ===== src/Warping/Defs.antt =====
-- negative_dtw and backtrace. The tables, of n + 1 rows of m + 1, are functions of the row and the
-- column; the code reads and writes them in range only.
use ctranslate.Prelude.{
  ℕ, zero, suc, ◌+◌, ◌-◌, ◌*◌, leb, ◌==◌, Bool, true, false, ◌&&◌, List, [], ◌∷◌, get_or,
  if◌then◌else◌, Run, done, fail, timeout, runtime_error,
}
use ctranslate.Padding.Padder.{ℤ, pred}

-- The numbers -1, 0, 1, and 2.
pub data Move : Type 0 where
  unset : Move
  both : Move
  up : Move
  left : Move

unfoldable pub put : {A : Type 0} → (ℕ → ℕ → A) → ℕ → ℕ → A → ℕ → ℕ → A
put t i j a i' j' = if (i == i') && (j == j') then a else t i' j'

-- The two loops that set the border, of which the second writes the corner last.
unfoldable pub with_border : (ℕ → ℕ → Move) → ℕ → ℕ → ℕ → ℕ → Move
with_border trace i j i' j' =
    if leb i' i && (j' == 0) then up else if (i' == 0) && leb j' j then left else trace i' j'

-- The loop, which adds to the end of a vector that is reversed behind it. On the border the moves lead
-- along it, so that neither number is 0 when it is decremented.
unfoldable pub backtrace_rounds : ℕ → (ℕ → ℕ → Move) → ℕ → ℕ → List (ℤ × ℤ) → Run (List (ℤ × ℤ))
backtrace_rounds zero trace i j path = timeout
backtrace_rounds (suc rounds) trace i j path = elim ((i == 0) && (j == 0)) [
  | true ↦ done path
  | false ↦ elim (trace i j) [
    | both ↦ backtrace_rounds rounds trace (i - 1) (j - 1) ((pred i, pred j) ∷ path)
    | up ↦ backtrace_rounds rounds trace (i - 1) j ((pred i, pred j) ∷ path)
    | left ↦ backtrace_rounds rounds trace i (j - 1) ((pred i, pred j) ∷ path)
    | unset ↦ fail runtime_error
  ]
]

unfoldable pub backtrace : (ℕ → ℕ → Move) → ℕ → ℕ → Run (List (ℤ × ℤ))
unfolding with_border backtrace_rounds
backtrace trace i j = backtrace_rounds (suc (i + j)) (with_border trace i j) i j []

-- `Cost` is float; `gain v c` is -v + c.
module _ {Cost : Type 0} (inf zero_cost : Cost) (lt : Cost → Cost → Bool)
    (gain : Cost → Cost → Cost) where
  pub record Tables : Type 0 where
    pub cost : ℕ → ℕ → Cost
    pub trace : ℕ → ℕ → Move

  -- The smallest of three costs, as the code finds it.
  unfoldable pub choose : Cost → Cost → Cost → Cost × Move
  choose c0 c1 c2 =
      if lt c0 c1 && lt c0 c2
      then (c0, both)
      else if lt c1 c0 && lt c1 c2
      then (c1, up)
      else (c2, left)

  -- The body of the inner loop.
  unfoldable pub fill_cell : List Cost → ℕ → ℕ → ℕ → Tables → Tables
  unfolding choose put
  fill_cell x m j i s =
      let (c, t) = choose (s.cost (i - 1) (j - 1)) (s.cost (i - 1) j) (s.cost i (j - 1)) in
      let v = get_or x ((i - 1) * m + (j - 1)) zero_cost in
      record { cost = put s.cost i j (gain v c); trace = put s.trace i j t }

  -- The loops, on the number of turns that are left.
  unfoldable pub fill_column : List Cost → ℕ → ℕ → ℕ → ℕ → Tables → Tables
  unfolding fill_cell
  fill_column x m j zero i s = s
  fill_column x m j (suc turns) i s = fill_column x m j turns (suc i) (fill_cell x m j i s)

  unfoldable pub fill_columns : List Cost → ℕ → ℕ → ℕ → ℕ → Tables → Tables
  unfolding fill_column
  fill_columns x n m zero j s = s
  fill_columns x n m (suc turns) j s = fill_columns x n m turns (suc j) (fill_column x m j n 1 s)

  unfoldable pub new_tables : Tables
  unfolding put
  new_tables = record { cost = put (λ i j. inf) 0 0 zero_cost; trace = λ i j. unset }

  -- `x` has n rows of m.
  unfoldable pub negative_dtw : List Cost → ℕ → ℕ → Run (List (ℤ × ℤ))
  unfolding fill_columns new_tables backtrace
  negative_dtw x n m = backtrace (fill_columns x n m m 1 new_tables).trace n m
