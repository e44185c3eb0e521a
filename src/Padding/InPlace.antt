-- ===== src/Padding/InPlace.antt =====
-- The gather in place gives what the gather into new memory gives.
use mathlib.Core.Option
use ctranslate.Prelude.{
  ℕ, zero, suc, ◌+◌, ◌≤◌, ◌<◌, leb, ◌==◌, Bool, true, Bool-cases, Option-cases, ◌&&◌, Option, none,
  some, List, [], ◌∷◌, ◌++◌, length, get_elem?, set, take, drop, ◌≡◌, refl, sym, ap, arith,
  append-nil, append_assoc, take-append_self, length-append, inl, inr, subst, ==_iff, leb→le,
}
use ctranslate.Padding.Gather.{
  strictly_increasing, gather, gather_batch_inplace, support_gather_batch_inplace, gather_op,
}

-- No index of the list is under `i`, by its first one.
above : ℕ → List ℕ → Bool
above i [] = true
above i (j ∷ js) = leb i j

above_next : (j : ℕ) (js : List ℕ) → strictly_increasing (j ∷ js) ≡ true → above (suc j) js ≡ true
unfolding strictly_increasing above
above_next j [] h = refl
above_next j (k ∷ js) h = ground (arith, h)

increasing_next :
    (j : ℕ) (js : List ℕ) → strictly_increasing (j ∷ js) ≡ true → strictly_increasing js ≡ true
unfolding strictly_increasing
increasing_next j [] h = refl
increasing_next j (k ∷ js) h = ground (arith, h)

above_weaken : (i j : ℕ) (js : List ℕ) → i ≤ j → above j js ≡ true → above i js ≡ true
unfolding above
above_weaken i j [] h k = refl
above_weaken i j (x ∷ js) h k = ground (arith, h, k)

above_zero : (is : List ℕ) → above 0 is ≡ true
unfolding above
above_zero [] = refl
above_zero (i ∷ is) = ground arith

module _ {A : Type 0} where
  -- The rows that are written, `ys`, with the rows that are still to be read behind them.
  get_elem?-written :
      (ys xs : List A) (j : ℕ)
      → length ys ≤ j
      → length ys ≤ length xs
      → get_elem? (ys ++ drop (length ys) xs) j ≡ get_elem? xs j
  get_elem?-written [] xs j h k = refl
  get_elem?-written (y ∷ ys) [] j h k = ground (arith, k)
  get_elem?-written (y ∷ ys) (x ∷ xs) zero h k = ground (arith, h)
  get_elem?-written (y ∷ ys) (x ∷ xs) (suc j) h k =
      get_elem?-written ys xs j (omega (arith, h)) (omega (arith, k))

  set-written :
      (ys xs : List A) (a : A)
      → length ys < length xs
      → set (ys ++ drop (length ys) xs) (length ys) a ≡ ys ++ a ∷ drop (suc (length ys)) xs
  set-written [] [] a h = ground (arith, h)
  set-written [] (x ∷ xs) a h = refl
  set-written (y ∷ ys) [] a h = ground (arith, h)
  set-written (y ∷ ys) (x ∷ xs) a h = ap (◌∷◌ y) (set-written ys xs a (omega (arith, h)))

  kept-written :
      (ys xs : List A) (a : A)
      → get_elem? xs (length ys) ≡ some a
      → ys ++ drop (length ys) xs ≡ ys ++ a ∷ drop (suc (length ys)) xs
  kept-written [] [] a h = cc
  kept-written [] (x ∷ xs) a h = cc
  kept-written (y ∷ ys) [] a h = cc
  kept-written (y ∷ ys) (x ∷ xs) a h = ap (◌∷◌ y) (kept-written ys xs a h)

  get_elem?_below : (xs : List A) (i : ℕ) → i < length xs → (a : A) × (get_elem? xs i ≡ some a)
  get_elem?_below [] i h = ground (arith, h)
  get_elem?_below (x ∷ xs) zero h = (x, refl)
  get_elem?_below (x ∷ xs) (suc i) h = get_elem?_below xs i (omega (arith, h))

  snoc_written : (ys zs : List A) (a : A) → ys ++ a ∷ zs ≡ (ys ++ a ∷ []) ++ zs
  snoc_written ys zs a = sym (append_assoc ys (a ∷ []) zs)

  map-cons :
      (ys : List A) (a : A) (o : Option (List A))
      → Option.map (◌++◌ (ys ++ a ∷ [])) o ≡ Option.map (◌++◌ ys) (Option.map (◌∷◌ a) o)
  map-cons ys a none = refl
  map-cons ys a (some zs) = ap some (append_assoc ys (a ∷ []) zs)

  -- One round of the loop writes the row of its index behind those that are written.
  round :
      (ys xs : List A) (j : ℕ) (js : List ℕ) (a : A)
      → length ys ≤ j
      → length ys < length xs
      → get_elem? xs j ≡ some a
      → gather_batch_inplace (ys ++ drop (length ys) xs) (length ys) (j ∷ js)
        ≡ gather_batch_inplace (ys ++ a ∷ drop (suc (length ys)) xs) (suc (length ys)) js
  unfolding gather_batch_inplace
  round ys xs j js a p q h = elim (Bool-cases (j == length ys)) [
    | inl e ↦ ground (
      arith,
      e,
      h,
      kept-written ys xs a (subst (λ k. get_elem? xs k ≡ some a) ((==_iff j (length ys)).0 e) h),
    )
    | inr e ↦
        ground (arith, e, h, get_elem?-written ys xs j p (omega (arith, q)), set-written ys xs a q)
  ]

  round_none :
      (ys xs : List A) (j : ℕ) (js : List ℕ)
      → length ys ≤ j
      → length ys < length xs
      → get_elem? xs j ≡ none
      → gather_batch_inplace (ys ++ drop (length ys) xs) (length ys) (j ∷ js) ≡ none
  unfolding gather_batch_inplace
  round_none ys xs j js p q h = elim (Bool-cases (j == length ys)) [
    | inl e ↦
        let (a, g) = get_elem?_below xs j (omega (arith, (==_iff j (length ys)).0 e, q)) in
        ground (arith, g, h)
    | inr e ↦ ground (arith, e, h, get_elem?-written ys xs j p (omega (arith, q)))
  ]

  gather_loop :
      (ys xs : List A) (js : List ℕ)
      → above (length ys) js ≡ true
      → strictly_increasing js ≡ true
      → length ys + length js ≤ length xs
      → Option.map
          (take (length ys + length js))
          (gather_batch_inplace (ys ++ drop (length ys) xs) (length ys) js)
        ≡ Option.map (◌++◌ ys) (gather xs js)
  unfolding gather gather_batch_inplace above
  gather_loop ys xs [] p q h =
      ground (arith, take-append_self ys (drop (length ys) xs), append-nil ys)
  gather_loop ys xs (j ∷ js) p q h = elim (Option-cases (get_elem? xs j)) [
    | inl g ↦ ground (arith, g, round_none ys xs j js (leb→le (length ys) j p) (omega (arith, h)) g)
    | inr (a, g) ↦
        let rest =
          gather_loop (ys ++ a ∷ []) xs js
            (above_weaken (length (ys ++ a ∷ [])) (suc j) js
              (omega (arith, leb→le (length ys) j p, length-append ys (a ∷ [])))
              (above_next j js q))
            (increasing_next j js q) (omega (arith, h, length-append ys (a ∷ []))) in
        ground (
          arith,
          g,
          round ys xs j js a (leb→le (length ys) j p) (omega (arith, h)) g,
          rest,
          length-append ys (a ∷ []),
          snoc_written ys (drop (suc (length ys)) xs) a,
          map-cons ys a (gather xs js),
        )
  ]

  map-id : (o : Option (List A)) → Option.map (◌++◌ []) o ≡ o
  map-id none = refl
  map-id (some a) = refl

  -- Gathering on the first axis gives the same rows whether it writes over its input, which it does
  -- on the CPU when the indices strictly increase and are not more than the rows, or into new memory.
  pub gather_op-gather :
      (on_cpu : Bool) (rows : List A) (is : List ℕ) → gather_op on_cpu rows is ≡ gather rows is
  unfolding gather_op support_gather_batch_inplace
  gather_op-gather on_cpu rows is =
      elim (Bool-cases (on_cpu && leb (length is) (length rows) && strictly_increasing is)) [
        | inr h ↦ ground (arith, h)
        | inl h ↦
            let ascending : strictly_increasing is ≡ true = ground (arith, h) in
            let fits : leb (length is) (length rows) ≡ true = ground (arith, h) in
            ground (
              arith,
              h,
              map-id (gather rows is),
              gather_loop [] rows is (above_zero is) ascending
                  (omega (arith, leb→le (length is) (length rows) fits)),
            )
      ]
