-- ===== src/Buffered/Stopping.antt =====
-- Once the destructor has set the flag, the thread leaves its loop after finitely many steps.
use ctranslate.Prelude.{
  ℕ, zero, suc, ◌+◌, ◌<◌, Bool, Bool-cases, true, false, List, length, some, is_nil, ◌⊎◌, ◌≡◌, refl,
  ap, subst, ◌∙◌, arith, inl, inr,
}
use ctranslate.Batching.Defs.{Example}
use ctranslate.Buffered.System.{
  Place, top, asleep, woken, exited, posting, Wrapper, must_flush, flush_size, leave, flush,
  Internal, flush_top, flush_woken, sleep, sleep_again, flush_late, notify_asleep, notify_none,
  post, internal, Reach, later,
}
use ctranslate.Buffered.Orderly.{posted_pairs, flushed, flush_empty, flush_taken}
use ctranslate.Buffered.Ending.{Reach-exited, Reach-notified}

-- How far the thread is from the end.
unfoldable pub rank : Place → ℕ
rank exited = 0
rank (posting es ps true) = 1
rank top = 2
rank asleep = 2
rank woken = 2
rank (posting es ps false) = 3

abbrev pub countdown : Wrapper → ℕ
countdown w = rank w.thread + w.notifiers

rank-leave :
    (es : List Example) (ps : List ℕ) (stop : Bool) → rank (leave stop) < rank (posting es ps stop)
unfolding rank leave
rank-leave es ps true = omega arith
rank-leave es ps false = omega arith

-- What a flush leaves, once the flag is set: nothing to do but post.
stop_flush :
    (w : Wrapper)
    → w.stop ≡ true
    → (t : Wrapper) × (flush w ≡ some t)
      × (rank t.thread < 2)
      × (t.notifiers ≡ w.notifiers)
      × (t.stop ≡ true)
unfolding rank leave flush_size
stop_flush w h = elim (Bool-cases (is_nil w.examples)) [
  | inl e ↦
      let p : rank (leave w.stop) ≡ 0 = rw h refl in
      (record w { thread = leave w.stop }, flush_empty w e, omega (arith, p), refl, h)
  | inr e ↦
      let k : flush_size w.max_batch_size (length w.examples) w.stop ≡ some (length w.examples) =
        rw h refl in
      let p : rank (flushed (length w.examples) w).thread ≡ 1 = rw h refl in
      (
        flushed (length w.examples) w,
        flush_taken w (length w.examples) e k,
        omega (arith, p),
        refl,
        h,
      )
]

flush-countdown :
    (w t : Wrapper)
    → w.stop ≡ true
    → rank w.thread ≡ 2
    → flush w ≡ some t
    → (countdown t < countdown w) × (t.stop ≡ true)
flush-countdown w t h r f =
    let (t', f', lt, n, s) = stop_flush w h in
    let e : t' ≡ t = cc in
    subst (λ x. (countdown x < countdown w) × (x.stop ≡ true)) e (omega (arith, lt, n, r), s)

rank_at : (w : Wrapper) (p : Place) → w.thread ≡ p → rank p ≡ 2 → rank w.thread ≡ 2
rank_at w p e h = ap rank e ∙ h

woken_rank : rank woken ≡ 2
unfolding rank
woken_rank = refl

must : (w : Wrapper) → w.stop ≡ true → must_flush w ≡ true
unfolding must_flush
must w h = ground (arith, h)

due : (w : Wrapper) → w.stop ≡ true → ¬ (must_flush w ≡ false)
due w h d = let p = must w h in cc

-- Once the flag is set, every step of the thread and every notification makes `countdown` smaller,
-- and the flag stays set, so only finitely many of them come in a row.
pub Internal-countdown :
    {w t : Wrapper} → w.stop ≡ true → Internal w t → (countdown t < countdown w) × (t.stop ≡ true)
unfolding rank
Internal-countdown {w} {t} h (flush_top e d f) = flush-countdown w t h (rank_at w top e refl) f
Internal-countdown {w} {t} h (flush_woken e d f) = flush-countdown w t h (rank_at w woken e refl) f
Internal-countdown {w} {t} h (flush_late e f) = flush-countdown w t h (rank_at w asleep e refl) f
Internal-countdown {w} h (sleep e d) = absurd (due w h d)
Internal-countdown {w} h (sleep_again e d) = absurd (due w h d)
Internal-countdown {w} h (notify_asleep n e k) =
    (omega (arith, e, rank_at w asleep k refl, woken_rank), h)
Internal-countdown {w} h (notify_none n e k) = (omega (arith, e), h)
Internal-countdown {w} h (post es ps stop e) = (omega (arith, ap rank e, rank-leave es ps stop), h)

-- The step is the end of a wait by its timeout.
abbrev is_late : {w t : Wrapper} → Internal w t → Bool
is_late (flush_top e d f) = false
is_late (flush_woken e d f) = false
is_late (sleep e d) = false
is_late (sleep_again e d) = false
is_late (flush_late e f) = true
is_late (notify_asleep n e k) = false
is_late (notify_none n e k) = false
is_late (post es ps stop e) = false

-- Steps of the thread and notifications, none of which is the end of a wait by its timeout.
pub data PromptRuns : Wrapper → Wrapper → Type 0 where
  arrived : {w : Wrapper} → PromptRuns w w
  promptly :
      {w t u : Wrapper} (step : Internal w t)
      → is_late step ≡ false
      → PromptRuns t u
      → PromptRuns w u

-- In a reachable state with the flag set, the thread is out of its loop or can go on without its
-- timeout.
prompt_step :
    {m n : ℕ} (w : Wrapper)
    → Reach m n w
    → w.stop ≡ true
    → (w.thread ≡ exited) ⊎ ((t : Wrapper) × (step : Internal w t) × (is_late step ≡ false))
prompt_step w reached h = at w.thread refl
  where
    notified :
        (k : ℕ)
        → w.notifiers ≡ k
        → 0 < k
        → w.thread ≡ asleep
        → (t : Wrapper) × (step : Internal w t) × (is_late step ≡ false)
    notified zero e lt a = absurd (omega (arith, lt))
    notified (suc k) e lt a = (_, notify_asleep k e a, refl)

    at :
        (p : Place)
        → w.thread ≡ p
        → (w.thread ≡ exited) ⊎ ((t : Wrapper) × (step : Internal w t) × (is_late step ≡ false))
    at top e = let (t, f, r, n, s) = stop_flush w h in inr (t, flush_top e (must w h) f, refl)
    at woken e = let (t, f, r, n, s) = stop_flush w h in inr (t, flush_woken e (must w h) f, refl)
    at asleep e = inr (notified w.notifiers refl (Reach-notified reached e (must w h)) e)
    at exited e = inl e
    at (posting es ps stop) e = inr (_, post es ps stop e, refl)

exits :
    {m n : ℕ} (k : ℕ) (w : Wrapper)
    → countdown w < k
    → Reach m n w
    → w.stop ≡ true
    → (t : Wrapper) × PromptRuns w t × (t.thread ≡ exited) × (t.requests ≡ posted_pairs t.posts)
exits zero w lt r h = absurd (omega (arith, lt))
exits (suc k) w lt r h = elim (prompt_step w r h) [
  | inl e ↦ (w, arrived, e, Reach-exited r e)
  | inr (t, step, prompt) ↦
      let (less, h') = Internal-countdown h step in
      let (u, run, e, q) = exits k t (omega (arith, lt, less)) (later r (internal step)) h' in
      (u, promptly step prompt run, e, q)
]

-- From every reachable state in which the destructor has set the flag, the thread comes out of its
-- loop by finitely many of its own steps and notifications, without any timeout of its wait, and then
-- all requests were posted, in order, each with its own promise.
pub stop-exits :
    {m n : ℕ} {w : Wrapper}
    → Reach m n w
    → w.stop ≡ true
    → (t : Wrapper) × PromptRuns w t × (t.thread ≡ exited) × (t.requests ≡ posted_pairs t.posts)
stop-exits {w = w} r h = exits (suc (countdown w)) w (omega arith) r h
