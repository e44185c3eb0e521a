-- ===== src/Warping/Tables.antt =====
-- What the tables of negative_dtw hold.
use ctranslate.Prelude.{
  ℕ, zero, suc, ◌+◌, ◌-◌, ◌*◌, ◌<◌, ◌≤◌, get_or, ltb, ◌==◌, Bool, true, false, Bool-cases, ◌&&◌,
  ◌||◌, List, ◌≡◌, refl, sym, subst, ◌∙◌, arith, inl, inr,
}
use ctranslate.Warping.Defs.{
  Move, both, up, left, unset, put, Tables, choose, fill_cell, fill_column, fill_columns,
  new_tables,
}

abbrev pub is_both : Move → Bool
is_both unset = false
is_both both = true
is_both up = false
is_both left = false

abbrev pub is_up : Move → Bool
is_up unset = false
is_up both = false
is_up up = true
is_up left = false

abbrev pub is_left : Move → Bool
is_left unset = false
is_left both = false
is_left up = false
is_left left = true

-- The moves from the cell of row i + 1 and column j + 1 that stay in the rows and columns from 1 on.
abbrev pub allowed : ℕ → ℕ → Move → Bool
allowed zero zero t = is_both t
allowed zero (suc j) t = is_left t
allowed (suc i) zero t = is_up t
allowed (suc i) (suc j) t = is_both t || (is_up t || is_left t)

-- The cell of row i + 1 and column j + 1 comes before that of row `row` and column `col`.
abbrev before : ℕ → ℕ → ℕ → ℕ → ℕ → Bool
before n col row i j = (ltb (suc j) col && ltb i n) || ((suc j == col) && ltb (suc i) row)

module _ {Cost : Type 0} (inf zero_cost : Cost) (lt : Cost → Cost → Bool)
    (gain : Cost → Cost → Cost) (IsEntry : Cost → Type 0) (IsSum : ℕ → Cost → Type 0)
    (zero-IsSum : IsSum 0 zero_cost)
    (gain-IsSum : (k : ℕ) (v c : Cost) → IsEntry v → IsSum k c → IsSum (suc k) (gain v c))
    (limit : ℕ) (below_inf : (k : ℕ) (c : Cost) → k ≤ limit → IsSum k c → lt c inf ≡ true)
    (inf_least : (c : Cost) → lt inf c ≡ false) where
  -- A sum of at most so many entries.
  abbrev IsReached : ℕ → Cost → Type 0
  IsReached bound c = (k : ℕ) × (k ≤ bound) × IsSum k c

  IsReached-mono : (a b : ℕ) (c : Cost) → a ≤ b → IsReached a c → IsReached b c
  IsReached-mono a b c h (k, l, q) = (k, omega (arith, h, l), q)

  IsReached-gain : (b : ℕ) (v c : Cost) → IsEntry v → IsReached b c → IsReached (suc b) (gain v c)
  IsReached-gain b v c e (k, l, q) = (suc k, omega (arith, l), gain-IsSum k v c e q)

  IsReached-below : (b : ℕ) (c : Cost) → b ≤ limit → IsReached b c → lt c inf ≡ true
  IsReached-below b c h (k, l, q) = below_inf k c (omega (arith, h, l)) q

  -- All that is read of a matrix.
  abbrev pub Entries : List Cost → ℕ → ℕ → Type 0
  Entries x n m = (i j : ℕ) → i < n → j < m → IsEntry (get_or x (i * m + j) zero_cost)

  -- The cells before a place are sums of entries, with a move that is allowed; the others are not read.
  record IsFilled (n col row : ℕ) (s : Tables inf zero_cost lt gain) : Type 0 where
    corner : s.cost 0 0 ≡ zero_cost
    top : (j : ℕ) → s.cost 0 (suc j) ≡ inf
    side : (i : ℕ) → s.cost (suc i) 0 ≡ inf
    cells :
        (i j : ℕ)
        → before n col row i j ≡ true
        → IsReached (suc (i + j)) (s.cost (suc i) (suc j))
          × (allowed i j (s.trace (suc i) (suc j)) ≡ true)

  choose-interior :
      (b i j : ℕ) (c0 c1 c2 : Cost)
      → IsReached b c0
      → IsReached b c1
      → IsReached b c2
      → IsReached b (choose inf zero_cost lt gain c0 c1 c2).0
        × (allowed (suc i) (suc j) (choose inf zero_cost lt gain c0 c1 c2).1 ≡ true)
  unfolding choose
  choose-interior b i j c0 c1 c2 f0 f1 f2 = elim (Bool-cases (lt c0 c1 && lt c0 c2)) [
    | inl h ↦ rw h (f0, refl)
    | inr h ↦ elim (Bool-cases (lt c1 c0 && lt c1 c2)) [
      | inl k ↦ rw (h, k) (f1, refl)
      | inr k ↦ rw (h, k) (f2, refl)
    ]
  ]

  -- The choice at the cell of row i + 1 and column j + 1.
  choose-allowed :
      (n i j : ℕ) (s : Tables inf zero_cost lt gain)
      → i < n
      → n ≤ limit
      → IsFilled n (suc j) (suc i) s
      → IsReached
          (i + j)
          (choose inf zero_cost lt gain (s.cost i j) (s.cost i (suc j)) (s.cost (suc i) j)).0
        × (allowed i j
              (choose inf zero_cost lt gain (s.cost i j) (s.cost i (suc j)) (s.cost (suc i) j)).1
            ≡ true)
  unfolding choose
  choose-allowed n zero zero s h l f =
      rw (f.corner, f.top 0, f.side 0, below_inf 0 zero_cost (omega arith) zero-IsSum)
        ((0, omega arith, zero-IsSum), refl)
  choose-allowed n zero (suc j) s h l f =
      rw (f.top j, f.top (suc j), inf_least inf)
        (IsReached-mono _ _ _ (omega arith) (f.cells zero j (ground (arith, h))).0, refl)
  choose-allowed n (suc i) zero s h l f =
      let c = (f.cells i zero (ground (arith, h))).0 in
      rw
        (
          f.side i,
          f.side (suc i),
          inf_least (s.cost (suc i) 1),
          IsReached-below (suc (i + 0)) (s.cost (suc i) 1) (omega (arith, h, l)) c,
        )
        (IsReached-mono _ _ _ (omega arith) c, refl)
  choose-allowed n (suc i) (suc j) s h l f =
      choose-interior (suc i + suc j) i j (s.cost (suc i) (suc j)) (s.cost (suc i) (suc (suc j)))
        (s.cost (suc (suc i)) (suc j))
        (IsReached-mono _ _ _ (omega arith) (f.cells i j (ground (arith, h))).0)
        (IsReached-mono _ _ _ (omega arith) (f.cells i (suc j) (ground (arith, h))).0)
        (IsReached-mono _ _ _ (omega arith) (f.cells (suc i) j (ground (arith, h))).0)

  fill_cell-IsFilled :
      (x : List Cost) (n m i j : ℕ) (s : Tables inf zero_cost lt gain)
      → i < n
      → n ≤ limit
      → IsEntry (get_or x (i * m + j) zero_cost)
      → IsFilled n (suc j) (suc i) s
      → IsFilled n (suc j) (suc (suc i)) (fill_cell inf zero_cost lt gain x m (suc j) (suc i) s)
  unfolding fill_cell put
  fill_cell-IsFilled x n m i j s h l v f =
      let p : i ≡ suc i - 1 = omega arith in
      let q : j ≡ suc j - 1 = omega arith in
      let (fin, ok) =
        subst (λ r. IsReached (i + j) r.0 × (allowed i j r.1 ≡ true))
          (λ k.
            choose inf zero_cost lt gain (s.cost (p k) (q k)) (s.cost (p k) (suc j))
              (s.cost (suc i) (q k)))
          (choose-allowed n i j s h l f) in
      let v' : IsEntry (get_or x ((suc i - 1) * m + (suc j - 1)) zero_cost) =
        coe 0 1 (k. IsEntry (get_or x (p k * m + q k) zero_cost)) v in
      let t =
        (choose inf zero_cost lt gain (s.cost (suc i - 1) (suc j - 1)) (s.cost (suc i - 1) (suc j))
          (s.cost (suc i) (suc j - 1))).1 in
      record {
        corner = ground (arith, f.corner);
        top = λ j'. ground (arith, f.top j');
        side = λ i'. ground (arith, f.side i');
        cells = λ i' j' b. elim (Bool-cases ((suc i == suc i') && (suc j == suc j'))) [
          | inl c ↦
              let si : i ≡ i' = ground (arith, c) in
              let sj : j ≡ j' = ground (arith, c) in
              rw c (
                IsReached-mono (suc (i + j)) (suc (i' + j')) _ (omega (arith, si, sj))
                    (IsReached-gain (i + j) _ _ v' fin),
                (λ k. allowed (sym si k) (sym sj k) t) ∙ ok,
              )
          | inr c ↦ rw c (f.cells i' j' (ground (arith, b, c)))
        ];
      }

  next_column-IsFilled :
      (n j : ℕ) (s : Tables inf zero_cost lt gain)
      → IsFilled n (suc j) (suc n) s
      → IsFilled n (suc (suc j)) 1 s
  next_column-IsFilled n j s f = record {
    corner = f.corner;
    top = f.top;
    side = f.side;
    cells = λ i' j' b. f.cells i' j' (ground (arith, b));
  }

  fill_column-IsFilled :
      (x : List Cost) (n m turns i j : ℕ) (s : Tables inf zero_cost lt gain)
      → i + turns ≡ n
      → n ≤ limit
      → j < m
      → Entries x n m
      → IsFilled n (suc j) (suc i) s
      → IsFilled n (suc j) (suc n) (fill_column inf zero_cost lt gain x m (suc j) turns (suc i) s)
  unfolding fill_column
  fill_column-IsFilled x n m zero i j s e l b v f =
      subst (λ k. IsFilled n (suc j) (suc k) s) (omega (arith, e)) f
  fill_column-IsFilled x n m (suc turns) i j s e l b v f =
      fill_column-IsFilled x n m turns (suc i) j
        (fill_cell inf zero_cost lt gain x m (suc j) (suc i) s) (omega (arith, e)) l b v
        (fill_cell-IsFilled x n m i j s (omega (arith, e)) l (v i j (omega (arith, e)) b) f)

  fill_columns-IsFilled :
      (x : List Cost) (n m turns j : ℕ) (s : Tables inf zero_cost lt gain)
      → n ≤ limit
      → j + turns ≤ m
      → Entries x n m
      → IsFilled n (suc j) 1 s
      → IsFilled n (suc (j + turns)) 1 (fill_columns inf zero_cost lt gain x n m turns (suc j) s)
  unfolding fill_columns
  fill_columns-IsFilled x n m zero j s l b v f = subst (λ k. IsFilled n (suc k) 1 s) (omega arith) f
  fill_columns-IsFilled x n m (suc turns) j s l b v f =
      subst
        (λ k. IsFilled n (suc k) 1 (fill_columns inf zero_cost lt gain x n m (suc turns) (suc j) s))
        (omega arith)
        (fill_columns-IsFilled x n m turns (suc j) _ l (omega (arith, b)) v (
          next_column-IsFilled n j _
            (fill_column-IsFilled x n m n 0 j s (omega arith) l (omega (arith, b)) v f)))

  new_tables-IsFilled : (n : ℕ) → IsFilled n 1 1 (new_tables inf zero_cost lt gain)
  unfolding new_tables put
  new_tables-IsFilled n = record {
    corner = refl;
    top = λ j. ground arith;
    side = λ i. ground arith;
    cells = λ i j b. ground (arith, b);
  }

  pub move-allowed :
      (x : List Cost) (n m i j : ℕ)
      → n ≤ limit
      → Entries x n m
      → i < n
      → j < m
      → allowed i j (
          (fill_columns inf zero_cost lt gain x n m m 1 (new_tables inf zero_cost lt gain)).trace
            (suc i)
            (suc j))
        ≡ true
  move-allowed x n m i j l v h k =
      ((fill_columns-IsFilled x n m m 0 (new_tables inf zero_cost lt gain) l (omega arith) v
          (new_tables-IsFilled n)).cells
        i j (ground (arith, h, k))).1
