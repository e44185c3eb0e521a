-- ===== src/Threads/Joining.antt =====
-- The pool comes to its end after `close`.
use ctranslate.Prelude.{ℕ, zero, suc, ◌+◌, ◌<◌, false, length, ◌≡◌, inl, inr, arith}
use ctranslate.Threads.System.{Pool, close, Reach, later}
use ctranslate.Threads.Invariant.{Reach-Inv}
use ctranslate.Threads.Progress.{work, Internal-work, step}
use ctranslate.Threads.Closing.{Runs, halt, next, IsJoined, closed, close-IsJoined, Runs-Reach}

Runs-trans : {s t u : Pool} → Runs s t → Runs t u → Runs s u
Runs-trans r halt = r
Runs-trans r (next q i) = next (Runs-trans r q) i

module _ {num_threads size : ℕ} {s : Pool} (r : Reach num_threads size s) (n : 0 < num_threads)
    (o : s.request_end ≡ false)
    (h : length s.arriving + length s.blocked + length s.roused ≡ 0) where
  -- By the work that is left.
  joins :
      (k : ℕ) (t : Pool)
      → work num_threads t < k
      → Runs (closed s) t
      → (u : Pool) × Runs t u × IsJoined num_threads u
  joins zero t b q = ground (arith, b)
  joins (suc k) t b q = elim (close-IsJoined r n o h q) [
    | inr j ↦ (t, halt, j)
    | inl (step {t = t'} i) ↦
        let less = Internal-work (Reach-Inv (Runs-Reach q (later r close))) i in
        let (u, rest, j) = joins k t' (omega (arith, b, less)) (next q i) in
        (u, Runs-trans (next halt i) rest, j)
  ]

  -- The destructor can return: after `close` on an open pool with workers and with no thread in
  -- `put`, whatever steps its threads have made, they can go on, in finitely many steps, to a state
  -- in which every worker has stopped, no job is left in the queue or unfinished, and the jobs were
  -- started in the order in which they entered the queue.
  pub close-joins : {t : Pool} → Runs (closed s) t → (u : Pool) × Runs t u × IsJoined num_threads u
  close-joins {t} q = joins (suc (work num_threads t)) t (omega arith) q
