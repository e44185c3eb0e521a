-- ===== src/Constraints/Tests.antt =====
-- Runs of the processors, and the theorems at concrete inputs.
use ctranslate.Prelude.{
  ℕ, ◌+◌, ◌*◌, ◌<◌, true, false, List, [], ◌∷◌, get_or, if◌then◌else◌, done, some, ◌≡◌, refl, arith,
  inr,
}
use ctranslate.Vocab.Map.{insert}
use ctranslate.Constraints.Defs.{DisableTokens, add, apply}
use ctranslate.Constraints.Processors.{
  ngram_final_tokens, apply_no_repeat_ngram, new_suppress_sequences, apply_suppress_sequences,
  suppress_begin,
}
use ctranslate.Constraints.Disabled.{add_calls, apply-add_calls}
use ctranslate.Constraints.NoRepeat.{repeats, apply_no_repeat_ngram-logits}
use ctranslate.Constraints.Sequences.{completes}
use ctranslate.Constraints.Suppress.{apply_suppress_sequences-logits}

-- Two rows of four tokens, on a device on which the indices are listed.
abbrev listed : DisableTokens ℕ
listed = record {
  logits = 5 ∷ 6 ∷ 7 ∷ 8 ∷ 5 ∷ 6 ∷ 7 ∷ 8 ∷ [];
  on_cpu = false;
  disable_value = 0;
  batch_size = 2;
  vocabulary_size = 4;
  flat_indices = [];
}

-- After 1 2 3 1, the bigrams 1 2 and 1 1 differ: only 2 was behind 1.
bigram_tokens : ngram_final_tokens 2 (1 ∷ 2 ∷ 3 ∷ 1 ∷ []) ≡ done (2 ∷ [])
unfolding ngram_final_tokens insert
bigram_tokens = refl

-- At step 1 the prefix of the first row is over; that of the second row is not.
begin_logits :
    (apply (
      suppress_begin
        (3 ∷ [])
        1
        2
        0
        (0 ∷ 1 ∷ [])
        (some ((2 ∷ []) ∷ (2 ∷ 2 ∷ []) ∷ []))
        listed)).logits
    ≡ 5 ∷ 6 ∷ 7 ∷ 0 ∷ 5 ∷ 6 ∷ 7 ∷ 8 ∷ []
unfolding suppress_begin apply add
begin_logits = refl

apply-add_calls_example :
    (apply (add_calls ((1, 3) ∷ (0, 2) ∷ (1, 3) ∷ []) (record listed { on_cpu = false }))).logits
    ≡ (apply (add_calls ((1, 3) ∷ (0, 2) ∷ (1, 3) ∷ []) (record listed { on_cpu = true }))).logits
apply-add_calls_example =
    apply-add_calls ((1, 3) ∷ (0, 2) ∷ (1, 3) ∷ []) listed refl
      (omega arith, (omega arith, (omega arith, tt)))

abbrev rows : List (List ℕ)
rows = (1 ∷ 2 ∷ 3 ∷ 1 ∷ []) ∷ (3 ∷ 3 ∷ 0 ∷ 2 ∷ []) ∷ []

apply_no_repeat_ngram-logits_example :
    (d' : DisableTokens ℕ) × (apply_no_repeat_ngram 2 0 rows listed ≡ done d')
    × ((b t x : ℕ)
        → b < 2
        → t < 4
        → get_or (apply d').logits (b * 4 + t) x ≡ (
            if repeats 2 (get_or rows b []) t
            then 0
            else get_or (apply listed).logits (b * 4 + t) x))
unfolding apply
apply_no_repeat_ngram-logits_example =
    apply_no_repeat_ngram-logits 2 rows listed (omega arith)
      (
        (omega arith, (omega arith, (omega arith, (omega arith, tt)))),
        ((omega arith, (omega arith, (omega arith, (omega arith, tt)))), tt),
      )
      (omega arith) (inr (omega arith))

-- 3 is disabled everywhere, and 2 after 3 1.
abbrev sequences : List (List ℕ)
sequences = (3 ∷ []) ∷ (3 ∷ 1 ∷ 2 ∷ []) ∷ []

apply_suppress_sequences-logits_example :
    get_or
      (apply (apply_suppress_sequences (new_suppress_sequences sequences) rows listed)).logits
      (0 * 4 + 2)
      9
    ≡ (if completes sequences (get_or rows 0 []) 2
        then 0
        else get_or (apply listed).logits (0 * 4 + 2) 9)
unfolding apply
apply_suppress_sequences-logits_example =
    apply_suppress_sequences-logits sequences rows listed refl
      ((omega arith, tt), ((omega arith, (omega arith, (omega arith, tt))), tt)) (omega arith)
      (inr (omega arith)) 0 2 9 (omega arith) (omega arith)
