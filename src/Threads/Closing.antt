-- ===== src/Threads/Closing.antt =====
-- The destructor of ThreadPool: the queue is closed, and the workers are joined.
use ctranslate.Prelude.{
  ℕ, suc, ◌+◌, ◌<◌, true, false, List, [], ◌∷◌, ◌++◌, length, length-append, ◌≡◌, ◌⊎◌, inr, arith,
  ap, append-nil,
}
use ctranslate.Threads.System.{
  Pool, Internal, enqueue, block, enqueue_roused, block_again, wake_one, wake_none, take_ready,
  take_woken, sleep, sleep_again, rouse_one, rouse_none, finish, wake_all, stop_ready, stop_woken,
  internal, close, Reach, later,
}
use ctranslate.Threads.Invariant.{Inv, Reach-Inv}
use ctranslate.Threads.Progress.{CanStep, Stuck, moves, or_else}

-- The steps of the pool's own threads in a row.
pub data Runs (s : Pool) : Pool → Type 0 where
  halt : Runs s s
  next : {t u : Pool} → Runs s t → Internal t u → Runs s u

-- Nobody posts, and no worker left while there were jobs.
pub record IsDraining (s : Pool) : Type 0 where
  pub closed : s.request_end ≡ true
  pub no_arriving : length s.arriving ≡ 0
  pub no_blocked : length s.blocked ≡ 0
  pub no_roused : length s.roused ≡ 0
  pub kept : (s.stopped ≡ 0) ⊎ (s.queue ≡ [])

-- Every job has been run and every worker has left its loop, so that `join` returns.
pub record IsJoined (num_threads : ℕ) (s : Pool) : Type 0 where
  pub all_stopped : s.stopped ≡ num_threads
  pub all_run : s.active ≡ 0
  pub none_left : s.queue ≡ []
  pub in_order : s.started ≡ s.accepted

abbrev pub closed : Pool → Pool
closed s = record s { request_end = true; closers = suc s.closers }

somewhere : (xs before behind : List ℕ) (j : ℕ) → xs ≡ before ++ j ∷ behind → 0 < length xs
somewhere xs before behind j h = omega (arith, ap length h, length-append before (j ∷ behind))

module _ {s : Pool} (d : IsDraining s) where
  Internal-IsDraining : {t : Pool} → Internal s t → IsDraining t
  Internal-IsDraining (enqueue before behind j h room) =
      ground (arith, somewhere s.arriving before behind j h)
  Internal-IsDraining (block before behind j h full) =
      ground (arith, somewhere s.arriving before behind j h)
  Internal-IsDraining (enqueue_roused before behind j h room) =
      ground (arith, somewhere s.roused before behind j h)
  Internal-IsDraining (block_again before behind j h full) =
      ground (arith, somewhere s.roused before behind j h)
  Internal-IsDraining (wake_one n m h k) = ground arith
  Internal-IsDraining (wake_none n h k) = ground arith
  Internal-IsDraining (take_ready n j q h k) = ground arith
  Internal-IsDraining (take_woken n j q h k) = ground arith
  Internal-IsDraining (sleep n h k o) = ground arith
  Internal-IsDraining (sleep_again n h k o) = ground arith
  Internal-IsDraining (rouse_one n before behind j h k) =
      ground (arith, somewhere s.blocked before behind j k)
  Internal-IsDraining (rouse_none n h k) = ground arith
  Internal-IsDraining (finish before behind j h) = ground arith
  Internal-IsDraining (wake_all n h) = ground arith
  Internal-IsDraining (stop_ready n h k c) = ground arith
  Internal-IsDraining (stop_woken n h k c) = ground arith

Runs-IsDraining : {s t : Pool} → Runs s t → IsDraining s → IsDraining t
Runs-IsDraining halt d = d
Runs-IsDraining (next r i) d = Internal-IsDraining (Runs-IsDraining r d) i

pub Runs-Reach : {n size : ℕ} {s t : Pool} → Runs s t → Reach n size s → Reach n size t
Runs-Reach halt r = r
Runs-Reach (next q i) r = later (Runs-Reach q r) (internal i)

close-IsDraining :
    {n size : ℕ} {s : Pool}
    → Inv n size s
    → s.request_end ≡ false
    → length s.arriving + length s.blocked + length s.roused ≡ 0
    → IsDraining (closed s)
close-IsDraining v o h = ground arith

Stuck-IsJoined :
    {num_threads size : ℕ} {s : Pool}
    → Inv num_threads size s
    → 0 < num_threads
    → IsDraining s
    → Stuck s
    → IsJoined num_threads s
Stuck-IsJoined {num_threads} {s} v n d k =
    let awake : s.stopped ≡ num_threads = ground arith in
    let e : s.queue ≡ [] = ground arith in
    record {
      all_stopped = awake;
      all_run = ground arith;
      none_left = e;
      in_order = ground (arith, append-nil s.started);
    }

-- After `close` on an open pool with no thread in `put`, the pool cannot get stuck before the end.
pub close-IsJoined :
    {num_threads size : ℕ} {s t : Pool}
    → Reach num_threads size s
    → 0 < num_threads
    → s.request_end ≡ false
    → length s.arriving + length s.blocked + length s.roused ≡ 0
    → Runs (closed s) t
    → CanStep t ⊎ IsJoined num_threads t
close-IsJoined {t} r n o h q = or_else (moves t) λ k. inr (
    Stuck-IsJoined (Reach-Inv (Runs-Reach q (later r close))) n
      (Runs-IsDraining q (close-IsDraining (Reach-Inv r) o h)) k)
