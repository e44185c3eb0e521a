-- ===== src/Threads/Progress.antt =====
-- The pool cannot get stuck before its work is done, and its work comes to an end.
use ctranslate.Prelude.{
  length-is_zero, ℕ, zero, suc, ◌+◌, ◌*◌, ◌<◌, Bool, true, false, List, [], ◌∷◌, ◌++◌, length,
  length-append, ◌≡◌, refl, ◌⊎◌, inl, inr, arith, ap, dec_lt,
}
use ctranslate.Threads.System.{
  Pool, Internal, enqueue, block, enqueue_roused, block_again, wake_one, wake_none, take_ready,
  take_woken, sleep, sleep_again, rouse_one, rouse_none, finish, wake_all, stop_ready, stop_woken,
  Reach,
}
use ctranslate.Threads.Invariant.{Inv, Reach-Inv}

-- All jobs are done, and each worker sleeps or has stopped.
pub record IsQuiet (s : Pool) : Type 0 where
  pub no_jobs : s.active ≡ 0
  pub queue_empty : s.queue ≡ []
  pub idle : s.ready + s.woken + length s.running ≡ 0

-- What bounds the internal steps that can follow, when no call comes.
unfoldable pub work : ℕ → Pool → ℕ
work n s =
    10 * length s.arriving
    + 6 * length s.blocked
    + 7 * length s.roused
    + 4 * length s.queue
    + 2 * s.put_signals
    + 2 * s.get_signals
    + (n + 1) * s.closers
    + s.ready
    + s.woken
    + 2 * length s.running

module _ {num_threads size : ℕ} {s : Pool} (v : Inv num_threads size s) where
  split :
      (xs before behind : List ℕ) (j : ℕ)
      → xs ≡ before ++ j ∷ behind
      → length xs ≡ suc (length (before ++ behind))
  split xs before behind j h =
      omega (arith, ap length h, length-append before (j ∷ behind), length-append before behind)

  notified :
      (n : ℕ)
      → s.closers ≡ suc n
      → (num_threads + 1) * s.closers ≡ (num_threads + 1) * n + (num_threads + 1)
  notified n h = rw h (omega arith)

  -- In a state in which the invariant holds, each internal step makes `work` smaller.
  pub Internal-work : {t : Pool} → Internal s t → work num_threads t < work num_threads s
  unfolding work
  Internal-work (enqueue before behind j h room) =
      ground (arith, split s.arriving before behind j h, length-append s.queue (j ∷ []))
  Internal-work (block before behind j h full) = ground (arith, split s.arriving before behind j h)
  Internal-work (enqueue_roused before behind j h room) =
      ground (arith, split s.roused before behind j h, length-append s.queue (j ∷ []))
  Internal-work (block_again before behind j h full) =
      ground (arith, split s.roused before behind j h)
  Internal-work (wake_one n m h k) = ground arith
  Internal-work (wake_none n h k) = ground arith
  Internal-work (take_ready n j q h k) = ground arith
  Internal-work (take_woken n j q h k) = ground arith
  Internal-work (sleep n h k o) = ground arith
  Internal-work (sleep_again n h k o) = ground arith
  Internal-work (rouse_one n before behind j h k) =
      ground (arith, split s.blocked before behind j k)
  Internal-work (rouse_none n h k) = ground arith
  Internal-work (finish before behind j h) = ground (arith, split s.running before behind j h)
  Internal-work (wake_all n h) = ground (arith, v.workers, notified n h)
  Internal-work (stop_ready n h k c) = ground arith
  Internal-work (stop_woken n h k c) = ground arith

-- A thread of the pool can make a step.
pub data CanStep (s : Pool) : Type 0 where
  step : {t : Pool} → Internal s t → CanStep s

pub or_else : {A B C : Type 0} → A ⊎ B → (B → A ⊎ C) → A ⊎ C
or_else (inl a) f = inl a
or_else (inr b) f = f b

module _ (s : Pool) where
  arriving_moves : (xs : List ℕ) → s.arriving ≡ xs → CanStep s ⊎ (length s.arriving ≡ 0)
  arriving_moves [] h = inr (ap length h)
  arriving_moves (j ∷ xs) h = elim (dec_lt (length s.queue) s.maximum_size) [
    | yes r ↦ inl (step (enqueue [] xs j h r))
    | no r ↦ inl (step (block [] xs j h (omega (arith, r))))
  ]

  roused_moves : (xs : List ℕ) → s.roused ≡ xs → CanStep s ⊎ (length s.roused ≡ 0)
  roused_moves [] h = inr (ap length h)
  roused_moves (j ∷ xs) h = elim (dec_lt (length s.queue) s.maximum_size) [
    | yes r ↦ inl (step (enqueue_roused [] xs j h r))
    | no r ↦ inl (step (block_again [] xs j h (omega (arith, r))))
  ]

  put_moves : (n m : ℕ) → s.put_signals ≡ n → s.asleep ≡ m → CanStep s ⊎ (s.put_signals ≡ 0)
  put_moves zero m h k = inr h
  put_moves (suc n) zero h k = inl (step (wake_none n h k))
  put_moves (suc n) (suc m) h k = inl (step (wake_one n m h k))

  get_moves :
      (n : ℕ) (xs : List ℕ) → s.get_signals ≡ n → s.blocked ≡ xs → CanStep s ⊎ (s.get_signals ≡ 0)
  get_moves zero xs h k = inr h
  get_moves (suc n) [] h k = inl (step (rouse_none n h k))
  get_moves (suc n) (j ∷ xs) h k = inl (step (rouse_one n [] xs j h k))

  close_moves : (n : ℕ) → s.closers ≡ n → CanStep s ⊎ (s.closers ≡ 0)
  close_moves zero h = inr h
  close_moves (suc n) h = inl (step (wake_all n h))

  running_moves : (xs : List ℕ) → s.running ≡ xs → CanStep s ⊎ (length s.running ≡ 0)
  running_moves [] h = inr (ap length h)
  running_moves (j ∷ xs) h = inl (step (finish [] xs j h))

  ready_moves :
      (n : ℕ) (q : List ℕ) (b : Bool)
      → s.ready ≡ n
      → s.queue ≡ q
      → s.request_end ≡ b
      → CanStep s ⊎ (s.ready ≡ 0)
  ready_moves zero q b h k e = inr h
  ready_moves (suc n) [] false h k e = inl (step (sleep n h k e))
  ready_moves (suc n) [] true h k e = inl (step (stop_ready n h k e))
  ready_moves (suc n) (j ∷ q) b h k e = inl (step (take_ready n j q h k))

  woken_moves :
      (n : ℕ) (q : List ℕ) (b : Bool)
      → s.woken ≡ n
      → s.queue ≡ q
      → s.request_end ≡ b
      → CanStep s ⊎ (s.woken ≡ 0)
  woken_moves zero q b h k e = inr h
  woken_moves (suc n) [] false h k e = inl (step (sleep_again n h k e))
  woken_moves (suc n) [] true h k e = inl (step (stop_woken n h k e))
  woken_moves (suc n) (j ∷ q) b h k e = inl (step (take_woken n j q h k))

  -- No thread can make a step by itself.
  pub record Stuck : Type 0 where
    pub no_arriving : length s.arriving ≡ 0
    pub no_roused : length s.roused ≡ 0
    pub no_put : s.put_signals ≡ 0
    pub no_get : s.get_signals ≡ 0
    pub no_close : s.closers ≡ 0
    pub no_running : length s.running ≡ 0
    pub no_ready : s.ready ≡ 0
    pub no_woken : s.woken ≡ 0

  pub moves : CanStep s ⊎ Stuck
  moves = or_else (arriving_moves s.arriving refl) λ a. or_else (roused_moves s.roused refl) λ b.
      or_else (put_moves s.put_signals s.asleep refl refl) λ c.
        or_else (get_moves s.get_signals s.blocked refl refl) λ d.
          or_else (close_moves s.closers refl) λ e. or_else (running_moves s.running refl) λ f.
            or_else (ready_moves s.ready s.queue s.request_end refl refl refl) λ g.
              or_else (woken_moves s.woken s.queue s.request_end refl refl refl) λ h. inr (record {
                no_arriving = a;
                no_roused = b;
                no_put = c;
                no_get = d;
                no_close = e;
                no_running = f;
                no_ready = g;
                no_woken = h;
              })

Stuck-IsQuiet :
    {num_threads size : ℕ} {s : Pool}
    → Inv num_threads size s
    → 0 < size
    → 0 < num_threads
    → s.request_end ≡ false
    → Stuck s
    → IsQuiet s
Stuck-IsQuiet {s} v z n o k =
    let e : length s.queue ≡ 0 = ground arith in
    record { no_jobs = ground arith; queue_empty = length-is_zero s.queue e; idle = ground arith }

-- A pool with at least one worker and a queue with room for at least one job has no deadlock: in
-- each state that it reaches, while it is not closed, some thread can make a step by itself, or
-- every job is done and every worker sleeps.
pub progress :
    {num_threads size : ℕ} {s : Pool}
    → Reach num_threads size s
    → 0 < size
    → 0 < num_threads
    → s.request_end ≡ false
    → CanStep s ⊎ IsQuiet s
progress {s} r z n o = or_else (moves s) (λ k. inr (Stuck-IsQuiet (Reach-Inv r) z n o k))
