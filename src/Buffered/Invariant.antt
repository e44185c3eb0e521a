-- ===== src/Buffered/Invariant.antt =====
-- Requests stay in order and with their promises, and no wake-up is lost.
use ctranslate.Prelude.{
  All-append, length-take, min, ℕ, suc, ◌+◌, ◌-◌, ◌<◌, Bool, Bool-cases, true, false, ◌||◌, List,
  [], ◌∷◌, ◌++◌, length, take, drop, Option-cases, some, leb, is_nil, ◌≢◌, ◌≡◌, refl, sym, ap,
  subst, ◌∙◌, arith, inl, inr, append_assoc, length-append,
}
use ctranslate.Batching.Defs.{Example}
use ctranslate.Buffered.Pairs.{pairs, pairs-append, pairs-split}
use ctranslate.Buffered.System.{
  Place, top, asleep, woken, exited, posting, Wrapper, new_wrapper, must_flush, flush_size, leave,
  flush, translate_async, Internal, flush_top, flush_woken, sleep, sleep_again, flush_late,
  notify_asleep, notify_none, post, Step, internal, request, destroy, spurious, Reach, start, later,
}
use ctranslate.Buffered.Orderly.{
  posted_pairs, in_hand, IsLast, IsHeard, IsMatched, IsOrderly, IsWaiting, in_hand-IsWaiting,
  IsMatched-IsWaiting, posted_pairs-append, nil_of_is_nil, drop-length, length-drop, leave-in_hand,
  leave-IsMatched, leave-IsLast, leave-IsHeard, flushed, flush_empty, flush_taken, flush_stuck,
  flush_size-stop, posting-IsLast,
}

-- A flush by a thread that is in `wait_for` or before it.
flush-IsOrderly :
    (w t : Wrapper) → IsOrderly w → IsWaiting w.thread → flush w ≡ some t → IsOrderly t
flush-IsOrderly w t v wait h = elim (Bool-cases (is_nil w.examples)) [
  | inl e ↦
      let q : record w { thread = leave w.stop } ≡ t = let p = flush_empty w e in cc in
      subst IsOrderly q (record {
        even = v.even;
        fifo =
            v.fifo
            ∙ ap (λ l. posted_pairs w.posts ++ (l ++ pairs w.examples w.promises))
                (in_hand-IsWaiting w.thread wait ∙ sym (leave-in_hand w.stop));
        last = leave-IsLast w.stop w.examples (nil_of_is_nil w.examples e);
        heard = leave-IsHeard w.stop (must_flush (record w { thread = leave w.stop })) w.notifiers;
        in_hand_matched = leave-IsMatched w.stop;
        posts_matched = v.posts_matched;
      })
  | inr e ↦ elim (Option-cases (flush_size w.max_batch_size (length w.examples) w.stop)) [
    | inl k ↦ let p = flush_stuck w e k in cc
    | inr (n, k) ↦
        let q : flushed n w ≡ t = let p = flush_taken w n e k in cc in
        subst IsOrderly q (record {
          even = length-drop n w.examples ∙ ap (λ l. l - n) v.even ∙ sym (length-drop n w.promises);
          fifo =
              v.fifo
              ∙ ap (λ l. posted_pairs w.posts ++ (l ++ pairs w.examples w.promises))
                  (in_hand-IsWaiting w.thread wait)
              ∙ ap (◌++◌ (posted_pairs w.posts)) (sym (pairs-split n w.examples w.promises v.even));
          last =
              posting-IsLast (take n w.examples) (drop n w.examples) (take n w.promises) w.stop
                (λ s.
                  ap (λ m. drop m w.examples)
                    (flush_size-stop w.max_batch_size (length w.examples) n w.stop s k)
                  ∙ drop-length w.examples);
          heard = tt;
          in_hand_matched =
              length-take n w.examples ∙ ap (min n) v.even ∙ sym (length-take n w.promises);
          posts_matched = v.posts_matched;
        })
  ]
]

IsWaiting-at : (p q : Place) → p ≡ q → IsWaiting q → IsWaiting p
IsWaiting-at p q e h = subst IsWaiting (sym e) h

IsLast-leave :
    (b : Bool) (es : List Example) (ps : List ℕ) (stop : Bool) (fs : List Example)
    → IsLast (posting es ps b) stop fs
    → IsLast (leave b) stop fs
unfolding leave
IsLast-leave true es ps stop fs h = h
IsLast-leave false es ps stop fs h = tt

post-IsOrderly :
    (w : Wrapper) (es : List Example) (ps : List ℕ) (stop : Bool)
    → IsOrderly w
    → w.thread ≡ posting es ps stop
    → IsOrderly (record w { thread = leave stop; posts = w.posts ++ (es, ps) ∷ [] })
post-IsOrderly w es ps stop v h = record {
  even = v.even;
  fifo =
      v.fifo
      ∙ ap (λ p. posted_pairs w.posts ++ (in_hand p ++ pairs w.examples w.promises)) h
      ∙ sym (append_assoc (posted_pairs w.posts) (pairs es ps) (pairs w.examples w.promises))
      ∙ ap (λ l. l ++ pairs w.examples w.promises) (sym (posted_pairs-append w.posts es ps))
      ∙ ap (λ l. posted_pairs (w.posts ++ (es, ps) ∷ []) ++ (l ++ pairs w.examples w.promises))
          (sym (leave-in_hand stop));
  last =
      IsLast-leave stop es ps w.stop w.examples (subst (λ p. IsLast p w.stop w.examples) h v.last);
  heard =
      leave-IsHeard stop
        (must_flush (record w { thread = leave stop; posts = w.posts ++ (es, ps) ∷ [] }))
        w.notifiers;
  in_hand_matched = leave-IsMatched stop;
  posts_matched =
      All-append _ w.posts ((es, ps) ∷ []) v.posts_matched
        (subst IsMatched h v.in_hand_matched, tt);
}

-- While the flag is not set, the thread has not read it.
IsLast-running :
    (p : Place) (stop stop' : Bool) (es es' : List Example)
    → stop ≡ false
    → IsLast p stop es
    → IsLast p stop' es'
IsLast-running exited stop stop' es es' f (h, k) = cc
IsLast-running (posting fs ps true) stop stop' es es' f (h, k) = cc
IsLast-running (posting fs ps false) stop stop' es es' f h = tt
IsLast-running top stop stop' es es' f h = tt
IsLast-running asleep stop stop' es es' f h = tt
IsLast-running woken stop stop' es es' f h = tt

IsHeard-notified : (p : Place) (due : Bool) (n : ℕ) → 0 < n → IsHeard p due n
IsHeard-notified asleep due n h = inr h
IsHeard-notified top due n h = tt
IsHeard-notified woken due n h = tt
IsHeard-notified exited due n h = tt
IsHeard-notified (posting es ps stop) due n h = tt

IsHeard-nothing : (p : Place) (due : Bool) (n : ℕ) → due ≡ false → IsHeard p due n
IsHeard-nothing asleep due n h = inl h
IsHeard-nothing top due n h = tt
IsHeard-nothing woken due n h = tt
IsHeard-nothing exited due n h = tt
IsHeard-nothing (posting es ps stop) due n h = tt

IsHeard-elsewhere : (p : Place) (due : Bool) (n : ℕ) → p ≢ asleep → IsHeard p due n
IsHeard-elsewhere asleep due n h = absurd (h refl)
IsHeard-elsewhere top due n h = tt
IsHeard-elsewhere woken due n h = tt
IsHeard-elsewhere exited due n h = tt
IsHeard-elsewhere (posting es ps stop) due n h = tt

-- The thread goes to sleep, or is woken.
moved :
    (w : Wrapper) (p : Place) (n : ℕ)
    → IsOrderly w
    → IsWaiting w.thread
    → IsWaiting p
    → IsLast p w.stop w.examples
    → IsHeard p (must_flush w) n
    → IsOrderly (record w { notifiers = n; thread = p })
unfolding must_flush
moved w p n v from wait l h = record {
  even = v.even;
  fifo =
      v.fifo
      ∙ ap (λ l. posted_pairs w.posts ++ (l ++ pairs w.examples w.promises))
          (in_hand-IsWaiting w.thread from ∙ sym (in_hand-IsWaiting p wait));
  last = l;
  heard = h;
  in_hand_matched = IsMatched-IsWaiting p wait;
  posts_matched = v.posts_matched;
}

Internal-IsOrderly : {w t : Wrapper} → Internal w t → IsOrderly w → IsOrderly t
unfolding must_flush
Internal-IsOrderly {w} {t} (flush_top h d f) v =
    flush-IsOrderly w t v (IsWaiting-at w.thread top h tt) f
Internal-IsOrderly {w} {t} (flush_woken h d f) v =
    flush-IsOrderly w t v (IsWaiting-at w.thread woken h tt) f
Internal-IsOrderly {w} {t} (flush_late h f) v =
    flush-IsOrderly w t v (IsWaiting-at w.thread asleep h tt) f
Internal-IsOrderly {w} (sleep h d) v =
    moved w asleep w.notifiers v (IsWaiting-at w.thread top h tt) tt tt (inl d)
Internal-IsOrderly {w} (sleep_again h d) v =
    moved w asleep w.notifiers v (IsWaiting-at w.thread woken h tt) tt tt (inl d)
Internal-IsOrderly {w} (notify_asleep n h k) v =
    moved w woken n v (IsWaiting-at w.thread asleep k tt) tt tt tt
Internal-IsOrderly {w} (notify_none n h k) v = record {
  even = v.even;
  fifo = v.fifo;
  last = v.last;
  heard = IsHeard-elsewhere w.thread (must_flush w) n k;
  in_hand_matched = v.in_hand_matched;
  posts_matched = v.posts_matched;
}
Internal-IsOrderly {w} (post es ps stop h) v = post-IsOrderly w es ps stop v h

request-IsOrderly :
    (w : Wrapper) (e : Example) (p : ℕ)
    → w.stop ≡ false
    → IsOrderly w
    → IsOrderly (translate_async e p w)
unfolding translate_async must_flush
request-IsOrderly w e p open_yet v = record {
  even =
      length-append w.examples (e ∷ [])
      ∙ ap (λ n. n + 1) v.even
      ∙ sym (length-append w.promises (p ∷ []));
  fifo =
      ap (λ l. l ++ (e, p) ∷ []) v.fifo
      ∙ append_assoc (posted_pairs w.posts) (in_hand w.thread ++ pairs w.examples w.promises)
          ((e, p) ∷ [])
      ∙ ap (◌++◌ (posted_pairs w.posts)) (
          append_assoc (in_hand w.thread) (pairs w.examples w.promises) ((e, p) ∷ [])
          ∙ ap (◌++◌ (in_hand w.thread)) (sym (pairs-append w.examples w.promises e p v.even)));
  last = IsLast-running w.thread w.stop w.stop w.examples (w.examples ++ e ∷ []) open_yet v.last;
  heard = elim (Bool-cases (leb w.max_buffer_size (length (w.examples ++ e ∷ [])))) [
    | inl t ↦ rw t (IsHeard-notified w.thread _ (suc w.notifiers) (omega arith))
    | inr t ↦
        IsHeard-nothing w.thread (leb w.max_buffer_size (length (w.examples ++ e ∷ [])) || w.stop) _
          (rw t open_yet)
  ];
  in_hand_matched = v.in_hand_matched;
  posts_matched = v.posts_matched;
}

Step-IsOrderly : {w t : Wrapper} → Step w t → IsOrderly w → IsOrderly t
Step-IsOrderly (internal i) v = Internal-IsOrderly i v
Step-IsOrderly {w} (request e p h) v = request-IsOrderly w e p h v
Step-IsOrderly {w} (destroy h) v = record {
  even = v.even;
  fifo = v.fifo;
  last = IsLast-running w.thread w.stop true w.examples w.examples h v.last;
  heard =
      IsHeard-notified w.thread (must_flush (record w { stop = true; notifiers = suc w.notifiers }))
        (suc w.notifiers) (omega arith);
  in_hand_matched = v.in_hand_matched;
  posts_matched = v.posts_matched;
}
Step-IsOrderly {w} (spurious h) v =
    moved w woken w.notifiers v (IsWaiting-at w.thread asleep h tt) tt tt tt

pub Reach-IsOrderly : {m n : ℕ} {w : Wrapper} → Reach m n w → IsOrderly w
unfolding new_wrapper pairs
Reach-IsOrderly start = record {
  even = refl;
  fifo = refl;
  last = tt;
  heard = tt;
  in_hand_matched = tt;
  posts_matched = tt;
}
Reach-IsOrderly (later r s) = Step-IsOrderly s (Reach-IsOrderly r)
