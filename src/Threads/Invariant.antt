-- ===== src/Threads/Invariant.antt =====
-- What holds in every reachable state of the pool.
use ctranslate.Prelude.{
  ℕ, suc, ◌+◌, ◌≤◌, ◌<◌, true, false, List, [], ◌∷◌, ◌++◌, length, length-append, ◌≡◌, ◌⊎◌, arith,
  ap, append_assoc,
}
use ctranslate.Threads.System.{
  Pool, new_pool, Internal, enqueue, block, enqueue_roused, block_again, wake_one, wake_none,
  take_ready, take_woken, sleep, sleep_again, rouse_one, rouse_none, finish, wake_all, stop_ready,
  stop_woken, Step, internal, post, close, close_again, spurious_get, spurious_put, Reach, start,
  later,
}

pub record Inv (num_threads size : ℕ) (s : Pool) : Type 0 where
  pub limit : s.maximum_size ≡ size
  -- The queue keeps to its maximum.
  pub bounded : length s.queue ≤ size
  -- The counter counts the jobs that are posted and not finished.
  pub counted :
      s.active
      ≡ length s.arriving + length s.blocked + length s.roused + length s.queue + length s.running
  -- Every worker is somewhere.
  pub workers : s.ready + s.asleep + s.woken + length s.running + s.stopped ≡ num_threads
  -- First in, first out.
  pub fifo : s.accepted ≡ s.started ++ s.queue
  -- While a worker sleeps, a notification is under way for every job in the queue.
  pub awake : (s.asleep ≡ 0) ⊎ (length s.queue ≤ s.put_signals + s.woken)
  -- While a thread sleeps in `put`, one is under way for every free place.
  pub room : (length s.blocked ≡ 0) ⊎ (size ≤ length s.queue + s.get_signals + length s.roused)
  -- While a worker sleeps on a closed queue, the notification of all is under way.
  pub closing : (s.request_end ≡ false) ⊎ (s.asleep ≡ 0) ⊎ (0 < s.closers)
  -- A worker stops only after the queue was closed.
  pub ended : (s.stopped ≡ 0) ⊎ (s.request_end ≡ true)

module _ {num_threads size : ℕ} {s : Pool} (v : Inv num_threads size s) where
  split :
      (xs before behind : List ℕ) (j : ℕ)
      → xs ≡ before ++ j ∷ behind
      → length xs ≡ suc (length (before ++ behind))
  split xs before behind j h =
      omega (arith, ap length h, length-append before (j ∷ behind), length-append before behind)

  Internal-Inv : {t : Pool} → Internal s t → Inv num_threads size t
  Internal-Inv (enqueue before behind j h room) = ground (
    arith,
    split s.arriving before behind j h,
    length-append s.queue (j ∷ []),
    append_assoc s.started s.queue (j ∷ []),
  )
  Internal-Inv (block before behind j h full) = ground (arith, split s.arriving before behind j h)
  Internal-Inv (enqueue_roused before behind j h room) = ground (
    arith,
    split s.roused before behind j h,
    length-append s.queue (j ∷ []),
    append_assoc s.started s.queue (j ∷ []),
  )
  Internal-Inv (block_again before behind j h full) =
      ground (arith, split s.roused before behind j h)
  Internal-Inv (wake_one n m h k) = ground arith
  Internal-Inv (wake_none n h k) = ground arith
  Internal-Inv (take_ready n j q h k) = ground (arith, append_assoc s.started (j ∷ []) q)
  Internal-Inv (take_woken n j q h k) = ground (arith, append_assoc s.started (j ∷ []) q)
  Internal-Inv (sleep n h k o) = ground arith
  Internal-Inv (sleep_again n h k o) = ground arith
  Internal-Inv (rouse_one n before behind j h k) = ground (arith, split s.blocked before behind j k)
  Internal-Inv (rouse_none n h k) = ground arith
  Internal-Inv (finish before behind j h) = ground (arith, split s.running before behind j h)
  Internal-Inv (wake_all n h) = ground arith
  Internal-Inv (stop_ready n h k c) = ground arith
  Internal-Inv (stop_woken n h k c) = ground arith

-- Every step keeps the invariant, the client's calls and spurious wake-ups included.
pub Step-Inv :
    {num_threads size : ℕ} {s t : Pool} → Step s t → Inv num_threads size s → Inv num_threads size t
Step-Inv (internal i) v = Internal-Inv v i
Step-Inv (post j) v = ground arith
Step-Inv close v = ground arith
Step-Inv (close_again c) v = v
Step-Inv (spurious_get m h) v = ground arith
Step-Inv {s = s} (spurious_put before behind j h) v =
    ground (arith, split v s.blocked before behind j h)

new_pool-Inv : (num_threads size : ℕ) → Inv num_threads size (new_pool num_threads size)
new_pool-Inv num_threads size = ground arith

-- In every reachable state the queue keeps to its maximum size and gives its jobs out in the order in
-- which they entered, the counter of active jobs is the number of jobs that are posted and not
-- finished, and no wake-up is lost: while a worker sleeps, a notification is under way for every
-- job in the queue and for a close, and while a thread sleeps in `put`, for every free place.
pub Reach-Inv :
    {num_threads size : ℕ} {s : Pool} → Reach num_threads size s → Inv num_threads size s
Reach-Inv {num_threads} {size} start = new_pool-Inv num_threads size
Reach-Inv (later r st) = Step-Inv st (Reach-Inv r)
