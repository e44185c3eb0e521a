-- ===== src/Decoding/Start.antt =====
-- The batch before the first step, and what the search gives for it.
use mathlib.Core.Option.{some-injective}
use ctranslate.Prelude.{
  ℕ, zero, suc, ◌+◌, ◌<◌, ◌==◌, ==_iff, false, some, List, [], ◌∷◌, length, get_or, get_elem?, map,
  iota, replicate, ◌≡◌, refl, sym, ap, ◌∙◌, arith, length-replicate, get_elem?-lt, get_or-replicate,
}
use ctranslate.Decoding.Defs.{Engine, SearchOptions, DecodingResult, get_max_step}
use ctranslate.Decoding.Greedy.{search_rounds, no_result, new_result, greedy_search}
use ctranslate.Decoding.Lanes.{RowWise, Lane, decode_one}
use ctranslate.Decoding.RowSteps.{length-map}
use ctranslate.Decoding.DecodeRows.{search_ext}
use ctranslate.Decoding.Batch.{Absent, Distinct, result_at, search_rounds-result_at}

module _ (E : Engine) (R : RowWise E) (o : SearchOptions) where
  open E use {State}
  open R use {rows, Row}

  -- The lanes before the first step.
  abbrev lanes_from : ℕ → List (ℕ × Row) → List (Lane E R o)
  lanes_from i [] = []
  lanes_from i ((id, row) ∷ starts) =
      record { batch_id = i; input = id; sequence = []; row = row } ∷ lanes_from (suc i) starts

  lanes_from-Absent :
      (b i : ℕ) (starts : List (ℕ × Row)) → b < i → Absent E R o b (lanes_from i starts)
  lanes_from-Absent b i [] h = tt
  lanes_from-Absent b i ((id, row) ∷ starts) h =
      (ground (arith, h), lanes_from-Absent b (suc i) starts (omega (arith, h)))

  lanes_from-Distinct : (i : ℕ) (starts : List (ℕ × Row)) → Distinct E R o (lanes_from i starts)
  lanes_from-Distinct i [] = tt
  lanes_from-Distinct i ((id, row) ∷ starts) =
      (lanes_from-Absent i (suc i) starts (omega arith), lanes_from-Distinct (suc i) starts)

  map-lanes_from :
      (i : ℕ) (starts : List (ℕ × Row))
      → (map (λ (l : Lane E R o). l.input) (lanes_from i starts) ≡ map (λ p. p.0) starts)
        × (map (λ (l : Lane E R o). l.batch_id) (lanes_from i starts)
            ≡ iota i (length (map (λ (p : ℕ × Row). p.0) starts)))
        × (map (λ (l : Lane E R o). l.sequence) (lanes_from i starts)
            ≡ replicate (length (map (λ (p : ℕ × Row). p.0) starts)) [])
        × (map (λ (l : Lane E R o). l.row) (lanes_from i starts) ≡ map (λ p. p.1) starts)
  map-lanes_from i [] = (refl, refl, refl, refl)
  map-lanes_from i ((id, row) ∷ starts) =
      let (p, q, r, s) = map-lanes_from (suc i) starts in
      (ap (◌∷◌ id) p, ap (◌∷◌ i) q, ap (◌∷◌ []) r, ap (◌∷◌ row) s)

  result_at-lanes_from :
      (rounds i k b : ℕ) (id : ℕ) (row : Row) (starts : List (ℕ × Row)) (r : DecodingResult E)
      → b ≡ i + k
      → get_elem? starts k ≡ some (id, row)
      → result_at E R o rounds 0 b (lanes_from i starts) r
        ≡ decode_one E R o rounds 0
            (record { batch_id = b; input = id; sequence = []; row = row })
            r
  result_at-lanes_from rounds i k b id row [] r e h = cc
  result_at-lanes_from rounds i zero b id row ((id', row') ∷ starts) r e h =
      let p : i ≡ b = omega (arith, e) in
      let q = some-injective (id', row') (id, row) h in
      rw ((==_iff i b).1 p) (λ j.
        decode_one E R o rounds 0
          (record { batch_id = p j; input = (q j).0; sequence = []; row = (q j).1 }) r)
  result_at-lanes_from rounds i (suc k) b id row ((id', row') ∷ starts) r e h =
      let p : (i == b) ≡ false = ground (arith, e) in
      rw p (result_at-lanes_from rounds (suc i) k b id row starts r (omega (arith, e)) h)

  pub greedy_search-rounds :
      (starts : List (ℕ × Row)) (state : State) (b id : ℕ) (row : Row)
      → rows state ≡ map (λ p. p.1) starts
      → get_elem? starts b ≡ some (id, row)
      → get_or (greedy_search E o (map (λ p. p.0) starts) state) b (no_result E)
        ≡ decode_one E R o
            (get_max_step o.max_length o.return_prefix o.prefix_ids)
            0
            (record { batch_id = b; input = id; sequence = []; row = row })
            (new_result E o)
  unfolding greedy_search
  greedy_search-rounds starts state b id row h g =
      let (p, q, r, s) = map-lanes_from 0 starts in
      let n = length (map (λ (p : ℕ × Row). p.0) starts) in
      let k : b < n =
        omega
          (arith, get_elem?-lt starts b (id, row) g, length-map (λ (p : ℕ × Row). p.0) starts) in
      let rounds = get_max_step o.max_length o.return_prefix o.prefix_ids in
      let rs : List (DecodingResult E) = replicate n (new_result E o) in
      ap (λ v. get_or (search_rounds E o rounds 0 v) b (no_result E))
        (sym (search_ext E R o state rs p q r))
      ∙ search_rounds-result_at E R o rounds 0 b (lanes_from 0 starts) state rs (h ∙ sym s)
          (lanes_from-Distinct 0 starts) (omega (arith, k, length-replicate n (new_result E o)))
      ∙ ap (result_at E R o rounds 0 b (lanes_from 0 starts))
          (get_or-replicate n b (new_result E o) (no_result E) k)
      ∙ result_at-lanes_from rounds 0 b b id row starts (new_result E o) (omega arith) g
