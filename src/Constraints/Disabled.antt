-- ===== src/Constraints/Disabled.antt =====
-- What DisableTokens leaves of the logits, written at once or listed first.
use native.Mathlib.Nat.{suc-mul}
use ctranslate.Prelude.{
  ℕ, zero, suc, ◌+◌, ◌*◌, ◌%◌, ◌<◌, ◌≤◌, ltb, ◌==◌, Bool, true, false, Bool-cases, ◌&&◌, List, [],
  ◌∷◌, set, get_or, length, is_nil, if◌then◌else◌, ◌⊎◌, ◌≡◌, refl, sym, ap, subst, ◌∙◌, arith, inl,
  inr, All, length-set, get_or-set, length_of_nil, length-is_zero,
}
use ctranslate.Vocab.Map.{insert}
use ctranslate.Vocab.Candidates.{is_in}
use ctranslate.Constraints.Defs.{
  DisableTokens, narrow, insert_index, indexed_fill, add, add_each, apply,
}

-- The scores are on the CPU, or `n` numbers from 0 on are indices of 32 bits with a sign.
abbrev pub IsNarrow : Bool → ℕ → Type 0
IsNarrow on_cpu n = (on_cpu ≡ true) ⊎ (n ≤ 2147483648)

pub IsNarrow-mono : (c : Bool) (m n : ℕ) → m ≤ n → IsNarrow c n → IsNarrow c m
IsNarrow-mono c m n h (inl e) = inl e
IsNarrow-mono c m n h (inr k) = inr (omega (arith, h, k))

pub mul_mono : (m n k : ℕ) → m ≤ n → m * k ≤ n * k
mul_mono m n k h = grind arith

insert_index-insert : (i : ℕ) (is : List ℕ) → i < 2147483648 → insert_index i is ≡ insert i is
unfolding insert_index insert narrow
insert_index-insert i [] h = ap (λ k. k ∷ []) (omega (arith, h))
insert_index-insert i (j ∷ is) h =
    let e : i % 4294967296 ≡ i = omega (arith, h) in ground (arith, e, insert_index-insert i is h)

module _ {A : Type 0} where
  set-set : (xs : List A) (i j : ℕ) (a : A) → set (set xs i a) j a ≡ set (set xs j a) i a
  set-set [] i j a = refl
  set-set (x ∷ xs) zero zero a = refl
  set-set (x ∷ xs) zero (suc j) a = refl
  set-set (x ∷ xs) (suc i) zero a = refl
  set-set (x ∷ xs) (suc i) (suc j) a = ap (◌∷◌ x) (set-set xs i j a)

  set-twice : (xs : List A) (i : ℕ) (a : A) → set (set xs i a) i a ≡ set xs i a
  set-twice [] i a = refl
  set-twice (x ∷ xs) zero a = refl
  set-twice (x ∷ xs) (suc i) a = ap (◌∷◌ x) (set-twice xs i a)

  indexed_fill-set :
      (xs : List A) (i : ℕ) (a : A) (is : List ℕ)
      → indexed_fill (set xs i a) a is ≡ set (indexed_fill xs a is) i a
  unfolding indexed_fill
  indexed_fill-set xs i a [] = refl
  indexed_fill-set xs i a (j ∷ is) =
      ap (λ ys. indexed_fill ys a is) (set-set xs i j a) ∙ indexed_fill-set (set xs j a) i a is

  indexed_fill-insert :
      (xs : List A) (i : ℕ) (a : A) (is : List ℕ)
      → indexed_fill xs a (insert i is) ≡ set (indexed_fill xs a is) i a
  unfolding indexed_fill insert
  indexed_fill-insert xs i a [] = refl
  indexed_fill-insert xs i a (j ∷ is) = elim (Bool-cases (ltb i j)) [
    | inl c ↦
        let e : insert i (j ∷ is) ≡ i ∷ j ∷ is = rw c refl in
        ap (indexed_fill xs a) e ∙ indexed_fill-set xs i a (j ∷ is)
    | inr c ↦ elim (Bool-cases (i == j)) [
      | inl q ↦
          let e : insert i (j ∷ is) ≡ j ∷ is = rw (c, q) refl in
          let same : j ≡ i = ground (arith, q) in
          ap (indexed_fill xs a) e
          ∙ indexed_fill-set xs j a is
          ∙ sym (set-twice (indexed_fill xs a is) j a)
          ∙ ap (λ k. set (set (indexed_fill xs a is) j a) k a) same
          ∙ ap (λ ys. set ys i a) (sym (indexed_fill-set xs j a is))
      | inr q ↦
          let e : insert i (j ∷ is) ≡ j ∷ insert i is = rw (c, q) refl in
          ap (indexed_fill xs a) e ∙ indexed_fill-insert (set xs j a) i a is
    ]
  ]

  apply-fill :
      (d : DisableTokens A)
      → (apply d).logits ≡ indexed_fill d.logits d.disable_value d.flat_indices
  unfolding apply indexed_fill
  apply-fill d = elim (Bool-cases (is_nil d.flat_indices)) [
    | inl c ↦ rw c (
        ap (indexed_fill d.logits d.disable_value)
          (sym (length-is_zero d.flat_indices (length_of_nil d.flat_indices c))))
    | inr c ↦ rw c refl
  ]

  -- On both kinds of device a token that is added is one more score that is overwritten.
  logits-add :
      (b t : ℕ) (d : DisableTokens A)
      → IsNarrow d.on_cpu (suc (b * d.vocabulary_size + t))
      → (apply (add b t d)).logits
        ≡ set (apply d).logits (b * d.vocabulary_size + t) d.disable_value
  unfolding add
  logits-add b t d small =
      let i = b * d.vocabulary_size + t in
      let before = ap (λ ys. set ys i d.disable_value) (sym (apply-fill d)) in
      elim (Bool-cases d.on_cpu) [
        | inl c ↦
            let e : add b t d ≡ record d { logits = set d.logits i d.disable_value } = rw c refl in
            ap (λ x. (apply x).logits) e
            ∙ apply-fill _
            ∙ indexed_fill-set d.logits i d.disable_value d.flat_indices
            ∙ before
        | inr c ↦
            let e : add b t d ≡ record d { flat_indices = insert_index i d.flat_indices } =
              rw c refl in
            let place = insert_index-insert i d.flat_indices (fits c small) in
            ap (λ x. (apply x).logits) e
            ∙ apply-fill _
            ∙ ap (indexed_fill d.logits d.disable_value) place
            ∙ indexed_fill-insert d.logits i d.disable_value d.flat_indices
            ∙ before
      ]
    where
      fits : {n : ℕ} → d.on_cpu ≡ false → IsNarrow d.on_cpu (suc n) → n < 2147483648
      fits c (inl e) = cc
      fits c (inr k) = omega (arith, k)

  length-indexed_fill :
      (xs : List A) (a : A) (is : List ℕ) → length (indexed_fill xs a is) ≡ length xs
  unfolding indexed_fill
  length-indexed_fill xs a [] = refl
  length-indexed_fill xs a (i ∷ is) = length-indexed_fill (set xs i a) a is ∙ length-set xs i a

  length-apply : (d : DisableTokens A) → length (apply d).logits ≡ length d.logits
  length-apply d = ap length (apply-fill d) ∙ length-indexed_fill d.logits _ d.flat_indices

  pub length-add :
      (b t : ℕ) (d : DisableTokens A) → length (apply (add b t d)).logits ≡ length (apply d).logits
  unfolding add
  length-add b t d =
      length-apply (add b t d)
      ∙ elim (Bool-cases d.on_cpu) [
        | inl c ↦ rw c (length-set d.logits (b * d.vocabulary_size + t) d.disable_value)
        | inr c ↦ rw c refl
      ]
      ∙ sym (length-apply d)

  pub add-kept :
      (b t : ℕ) (d : DisableTokens A)
      → ((add b t d).vocabulary_size ≡ d.vocabulary_size)
        × ((add b t d).disable_value ≡ d.disable_value)
        × ((add b t d).on_cpu ≡ d.on_cpu)
        × ((add b t d).batch_size ≡ d.batch_size)
  unfolding add
  add-kept b t d = elim (Bool-cases d.on_cpu) [
    | inl c ↦ rw c (refl, refl, refl, refl)
    | inr c ↦ rw c (refl, refl, refl, refl)
  ]

pub flat_same :
    (b b' t t' v : ℕ) → t < v → t' < v → ((b * v + t) == (b' * v + t')) ≡ ((b == b') && (t == t'))
flat_same zero zero t t' v h k = ground arith
flat_same zero (suc b') t t' v h k = ground (arith, h, k, suc-mul b' v)
flat_same (suc b) zero t t' v h k = ground (arith, h, k, suc-mul b v)
flat_same (suc b) (suc b') t t' v h k =
    ground (arith, suc-mul b v, suc-mul b' v, flat_same b b' t t' v h k)

module _ {A : Type 0} where
  -- The calls of `add` in a step, one after the other.
  abbrev pub add_calls : List (ℕ × ℕ) → DisableTokens A → DisableTokens A
  add_calls [] d = d
  add_calls ((b, t) ∷ calls) d = add_calls calls (add b t d)

  pub logits-add_v :
      (b t v : ℕ) (a : A) (d : DisableTokens A)
      → d.vocabulary_size ≡ v
      → d.disable_value ≡ a
      → IsNarrow d.on_cpu (suc (b * v + t))
      → (apply (add b t d)).logits ≡ set (apply d).logits (b * v + t) a
  logits-add_v b t v a d p q h =
      logits-add b t d (subst (λ w. IsNarrow d.on_cpu (suc (b * w + t))) (sym p) h)
      ∙ (λ i. set (apply d).logits (b * p i + t) (q i))

  -- Two objects with the same logits after `apply` keep them the same.
  logits-add_calls :
      (calls : List (ℕ × ℕ)) (v : ℕ) (a : A) (d d' : DisableTokens A)
      → All (λ c. c.0 * v + c.1 < 2147483648) calls
      → d.vocabulary_size ≡ v
      → d'.vocabulary_size ≡ v
      → d.disable_value ≡ a
      → d'.disable_value ≡ a
      → (apply d).logits ≡ (apply d').logits
      → (apply (add_calls calls d)).logits ≡ (apply (add_calls calls d')).logits
  logits-add_calls [] v a d d' h p p' q q' e = e
  logits-add_calls ((b, t) ∷ calls) v a d d' h p p' q q' e =
      logits-add_calls calls v a (add b t d) (add b t d') h.1 ((add-kept b t d).0 ∙ p)
        ((add-kept b t d').0 ∙ p') ((add-kept b t d).1 ∙ q) ((add-kept b t d').1 ∙ q')
        (logits-add_v b t v a d p q (inr (omega (arith, h.0)))
          ∙ ap (λ l. set l (b * v + t) a) e
          ∙ sym (logits-add_v b t v a d' p' q' (inr (omega (arith, h.0)))))

  -- The calls of add in a step, in any order and with repetitions, leave the same logits when the
  -- device lists the indices and fills them in apply as when each score is overwritten at once. The list
  -- of indices is empty before, and each index fits the 32 bits with a sign of the list.
  pub apply-add_calls :
      (calls : List (ℕ × ℕ)) (d : DisableTokens A)
      → d.flat_indices ≡ []
      → All (λ c. c.0 * d.vocabulary_size + c.1 < 2147483648) calls
      → (apply (add_calls calls (record d { on_cpu = false }))).logits
        ≡ (apply (add_calls calls (record d { on_cpu = true }))).logits
  apply-add_calls calls d e h =
      logits-add_calls calls d.vocabulary_size d.disable_value (record d { on_cpu = false })
        (record d { on_cpu = true }) h refl refl refl refl
        (apply-fill (record d { on_cpu = false }) ∙ sym (apply-fill (record d { on_cpu = true })))

  -- What the tokens of one row do to a score.
  pub get_or-add_each :
      (b : ℕ) (tokens : List ℕ) (v : ℕ) (a : A) (d : DisableTokens A) (b' t' : ℕ) (x : A)
      → d.vocabulary_size ≡ v
      → d.disable_value ≡ a
      → All (λ t. t < v) tokens
      → t' < v
      → b' * v + t' < length (apply d).logits
      → IsNarrow d.on_cpu (suc b * v)
      → get_or (apply (add_each b tokens d)).logits (b' * v + t') x
        ≡ (if (b == b') && is_in t' tokens then a else get_or (apply d).logits (b' * v + t') x)
  unfolding add_each
  get_or-add_each b [] v a d b' t' x p q h k l w = ground (arith)
  get_or-add_each b (t ∷ tokens) v a d b' t' x p q h k l w =
      let e = logits-add_v b t v a d p q (
        IsNarrow-mono d.on_cpu (suc (b * v + t)) (suc b * v) (omega (arith, h.0, suc-mul b v)) w) in
      let n : length (apply (add b t d)).logits ≡ length (apply d).logits =
        ap length e ∙ length-set (apply d).logits (b * v + t) a in
      let ih =
        get_or-add_each b tokens v a (add b t d) b' t' x ((add-kept b t d).0 ∙ p)
          ((add-kept b t d).1 ∙ q) h.1 k (omega (arith, l, n))
          (subst (λ c. IsNarrow c (suc b * v)) (sym (add-kept b t d).2) w) in
      let r =
        ap (λ ys. get_or ys (b' * v + t') x) e
        ∙ get_or-set (apply d).logits (b * v + t) (b' * v + t') a x l in
      ground (arith, ih, r, flat_same b b' t t' v h.0 k)

  pub add_each-kept :
      (b : ℕ) (tokens : List ℕ) (d : DisableTokens A)
      → ((add_each b tokens d).vocabulary_size ≡ d.vocabulary_size)
        × ((add_each b tokens d).disable_value ≡ d.disable_value)
        × (length (apply (add_each b tokens d)).logits ≡ length (apply d).logits)
        × ((add_each b tokens d).on_cpu ≡ d.on_cpu)
  unfolding add_each
  add_each-kept b [] d = (refl, refl, refl, refl)
  add_each-kept b (t ∷ tokens) d =
      let (v, a, l, c) = add_each-kept b tokens (add b t d) in
      (v ∙ (add-kept b t d).0, a ∙ (add-kept b t d).1, l ∙ length-add b t d, c ∙ (add-kept b t d).2)
