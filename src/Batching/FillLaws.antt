-- ===== src/Batching/FillLaws.antt =====
-- get_next against a cut of the list of examples that the reader has still to deliver.
use ctranslate.Prelude.{
  ℕ, zero, suc, ◌+◌, ◌*◌, ◌<◌, max, Bool, true, false, not, ◌&&◌, List, [], ◌∷◌, ◌++◌, length, ltb,
  is_nil, ◌≡◌, refl, Result, ok, Run, done, arith, append_assoc, Bool-cases, inl, inr, ◌∙◌,
  append-nil, length-append,
}
use ctranslate.Batching.Defs.{
  BatchType, Example, get_batch_size_increment, Reader, u64, stop, fill_batch_with_fixed_increment,
  fill_batch_with_variable_increment, fill, get_next,
}
use ctranslate.Batching.Cut.{cut_fixed, cut_variable, cut_batch}
use ctranslate.Batching.Feeds.{Feeds, Pending, Delivers, fresh, begun}

not-is_nil : {A : Type 0} (xs : List A) → not (is_nil xs) ≡ ltb 0 (length xs)
not-is_nil [] = refl
not-is_nil (x ∷ xs) = ground arith

module _ {S : Type 0} (next : S → Result (Example × S)) where
  -- A read that returns these examples and leaves the reader with those to deliver.
  pub record Reads (r : Run (List Example × Reader S)) (batch rest : List Example) : Type 0 where
    pub after : Reader S
    pub returns : r ≡ done (batch, after)
    pub left : Delivers next after rest

  advance :
      (s : S) (xs : List Example)
      → Feeds next s xs
      → (e : Example) × (s' : S) × (next s ≡ ok (e, s')) × Pending next s' e xs
  advance s [] (e, s', q, emp) = (e, s', q, emp)
  advance s (x ∷ xs) (s', q, full, f) = (x, s', q, (refl, full, f))

  stops :
      {r : Run (List Example × Reader S)} (s : S) (ahead : Example) (batch es : List Example)
      → Pending next s ahead es
      → r ≡ stop next s ahead batch
      → Reads r (batch ++ []) es
  stops s ahead batch es p q = record {
    after = record { source = s; initialized = true; ahead = ahead };
    returns = rw append-nil q;
    left = begun refl p;
  }

  same :
      {r r' : Run (List Example × Reader S)} {batch rest : List Example}
      → r ≡ r'
      → Reads r' batch rest
      → Reads r batch rest
  same q h = record { after = h.after; returns = q ∙ h.returns; left = h.left }

  goes_on :
      {r r' : Run (List Example × Reader S)} (batch b rest : List Example) (x : Example)
      → r ≡ r'
      → Reads r' ((batch ++ x ∷ []) ++ b) rest
      → Reads r (batch ++ x ∷ b) rest
  goes_on batch b rest x q h = record {
    after = h.after;
    returns = q ∙ rw (← append_assoc batch (x ∷ []) b) h.returns;
    left = h.left;
  }

  fill_fixed-Reads :
      (fuel max_size : ℕ) (type : BatchType) (s : S) (ahead : Example) (batch : List Example)
      (m count : ℕ) (es : List Example)
      → length es < fuel
      → count ≡ length batch
      → Pending next s ahead es
      → Reads
          (fill_batch_with_fixed_increment next fuel max_size type s ahead batch m)
          (batch ++ (cut_fixed max_size type count m es).0)
          (cut_fixed max_size type count m es).1
  unfolding fill_batch_with_fixed_increment cut_fixed
  fill_fixed-Reads zero max_size type s ahead batch m count es h n p = absurd (omega arith)
  fill_fixed-Reads (suc fuel) max_size type s ahead batch m count [] h n e =
      stops s ahead batch [] e (rw (e, fill_batch_with_fixed_increment))
  fill_fixed-Reads (suc fuel) max_size type s ahead batch m count (x ∷ xs) h n (e, full, f) =
      elim (Bool-cases (ltb 0 count && ltb max_size (u64 ((count + 1) * m')))) [
        | inl t ↦
            rw t (stops s ahead batch (x ∷ xs) (e, full, f) (ground (arith, not-is_nil batch)))
        | inr t ↦
            let (y, s', q, p) = advance s xs f in
            rw t (
              goes_on batch _ _ x (ground (arith, not-is_nil batch)) (
                fill_fixed-Reads fuel max_size type s' y (batch ++ x ∷ []) m' (suc count) xs
                  (omega arith) (omega (arith, length-append batch (x ∷ []))) p))
      ]
    where
      m' : ℕ
      m' = max m (get_batch_size_increment x type)

  fill_variable-Reads :
      (fuel max_size : ℕ) (type : BatchType) (s : S) (ahead : Example) (batch : List Example)
      (total count : ℕ) (es : List Example)
      → length es < fuel
      → count ≡ length batch
      → Pending next s ahead es
      → Reads
          (fill_batch_with_variable_increment next fuel max_size type s ahead batch total)
          (batch ++ (cut_variable max_size type count total es).0)
          (cut_variable max_size type count total es).1
  unfolding fill_batch_with_variable_increment cut_variable
  fill_variable-Reads zero max_size type s ahead batch total count es h n p = absurd (omega arith)
  fill_variable-Reads (suc fuel) max_size type s ahead batch total count [] h n e =
      stops s ahead batch [] e (rw (e, fill_batch_with_variable_increment))
  fill_variable-Reads (suc fuel) max_size type s ahead batch total count (x ∷ xs) h n (e, full, f) =
      elim (Bool-cases (ltb 0 count && ltb max_size total')) [
        | inl t ↦
            rw t (stops s ahead batch (x ∷ xs) (e, full, f) (ground (arith, not-is_nil batch)))
        | inr t ↦
            let (y, s', q, p) = advance s xs f in
            rw t (
              goes_on batch _ _ x (ground (arith, not-is_nil batch)) (
                fill_variable-Reads fuel max_size type s' y (batch ++ x ∷ []) total' (suc count) xs
                  (omega arith) (omega (arith, length-append batch (x ∷ []))) p))
      ]
    where
      total' : ℕ
      total' = u64 (total + get_batch_size_increment x type)

  fill-Reads :
      (fuel max_size : ℕ) (type : BatchType) (padding : Bool) (r : Reader S) (es : List Example)
      → length es < fuel
      → r.initialized ≡ true
      → Pending next r.source r.ahead es
      → Reads
          (fill next fuel max_size type padding r)
          (cut_batch max_size type padding es).0
          (cut_batch max_size type padding es).1
  unfolding fill cut_batch cut_fixed cut_variable
  fill-Reads fuel max_size type true r [] h i e = record {
    after = r;
    returns = ground arith;
    left = begun i e;
  }
  fill-Reads fuel max_size type false r [] h i e = record {
    after = r;
    returns = ground arith;
    left = begun i e;
  }
  fill-Reads fuel max_size type true r (x ∷ xs) h i (e, full, f) =
      same (ground arith)
        (fill_fixed-Reads fuel max_size type r.source r.ahead [] 0 0 (x ∷ xs) h refl (e, full, f))
  fill-Reads fuel max_size type false r (x ∷ xs) h i (e, full, f) =
      same (ground arith) (
        fill_variable-Reads fuel max_size type r.source r.ahead [] 0 0 (x ∷ xs) h refl (e, full, f))

  -- With fuel for the examples that are left, one read returns the cut of what the reader has to
  -- deliver, and leaves the reader with the rest. The source is any that ends and does not throw.
  pub get_next-Reads :
      (fuel max_size : ℕ) (type : BatchType) (padding : Bool) (r : Reader S) (es : List Example)
      → 0 < max_size
      → length es < fuel
      → Delivers next r es
      → Reads
          (get_next next fuel max_size type padding r)
          (cut_batch max_size type padding es).0
          (cut_batch max_size type padding es).1
  unfolding get_next
  get_next-Reads fuel max_size type padding r es pos h (fresh i f) =
      let (y, s', q, p) = advance r.source es f in
      let r' : Reader S = record { source = s'; initialized = true; ahead = y } in
      same (ground arith) (fill-Reads fuel max_size type padding r' es h refl p)
  get_next-Reads fuel max_size type padding r es pos h (begun i p) =
      same (ground arith) (fill-Reads fuel max_size type padding r es h i p)
