-- ===== src/Threads/Bound.antt =====
-- How many steps the pool makes, whatever its client does and however often a thread wakes up.
use ctranslate.Prelude.{
  ℕ, suc, ◌+◌, ◌*◌, ◌≤◌, true, List, ◌∷◌, ◌++◌, length, length-append, ◌≡◌, ap, arith,
}
use ctranslate.Threads.System.{
  Pool, new_pool, internal, post, close, close_again, spurious_get, spurious_put, Reach, start,
  later,
}
use ctranslate.Threads.Invariant.{Reach-Inv}
use ctranslate.Threads.Progress.{work, Internal-work}

-- The steps of a run so far, by their kinds.
pub record Counts : Type 0 where
  pub steps : ℕ
  pub posts : ℕ
  pub closes : ℕ
  pub wakeups : ℕ

-- The counts of the steps that lead to a state.
abbrev pub count : {n size : ℕ} {s : Pool} → Reach n size s → Counts
count start = record { steps = 0; posts = 0; closes = 0; wakeups = 0 }
count (later r (internal i)) = let c = count r in record c { steps = suc c.steps }
count (later r (post j)) = let c = count r in record c { posts = suc c.posts }
count (later r close) = let c = count r in record c { closes = suc c.closes }
count (later r (close_again h)) = count r
count (later r (spurious_get m h)) = let c = count r in record c { wakeups = suc c.wakeups }
count (later r (spurious_put before behind j h)) =
    let c = count r in record c { wakeups = suc c.wakeups }

new_pool-work : (n size : ℕ) → work n (new_pool n size) ≡ n
unfolding work
new_pool-work n size = omega arith

module _ (n : ℕ) (s : Pool) where
  post-work :
      (j : ℕ)
      → work n (record s { active = suc s.active; arriving = j ∷ s.arriving }) ≡ work n s + 10
  unfolding work
  post-work j = omega arith

  close-work :
      work n (record s { request_end = true; closers = suc s.closers }) ≡ work n s + (n + 1)
  unfolding work
  close-work = grind arith

  get-work :
      (m : ℕ)
      → s.asleep ≡ suc m
      → work n (record s { asleep = m; woken = suc s.woken }) ≡ work n s + 1
  unfolding work
  get-work m h = omega arith

  put-work :
      (before behind : List ℕ) (j : ℕ)
      → s.blocked ≡ before ++ j ∷ behind
      → work n (record s { blocked = before ++ behind; roused = j ∷ s.roused }) ≡ work n s + 1
  unfolding work
  put-work before behind j h =
      omega (arith, ap length h, length-append before (j ∷ behind), length-append before behind)

count-work :
    {n size : ℕ} {s : Pool} (r : Reach n size s)
    → (count r).steps + work n s
      ≤ n + 10 * (count r).posts + (n + 1) * (count r).closes + (count r).wakeups
count-work {n} {size} start = omega (arith, new_pool-work n size)
count-work (later r (internal i)) = omega (arith, count-work r, Internal-work (Reach-Inv r) i)
count-work {n} (later {s} r (post j)) = omega (arith, count-work r, post-work n s j)
count-work {n} (later {s} r close) = grind (arith, count-work r, close-work n s)
count-work (later r (close_again h)) = count-work r
count-work {n} (later {s} r (spurious_get m h)) = omega (arith, count-work r, get-work n s m h)
count-work {n} (later {s} r (spurious_put before behind j h)) =
    omega (arith, count-work r, put-work n s before behind j h)

-- In every run, with spurious wake-ups, the pool makes at most one step of its own for each worker,
-- ten for each job that is posted, one for each worker and one more for each call of close that sets
-- the flag, and one for each spurious wake-up, so that only finitely many come between them.
pub count-steps :
    {n size : ℕ} {s : Pool} (r : Reach n size s)
    → (count r).steps ≤ n + 10 * (count r).posts + (n + 1) * (count r).closes + (count r).wakeups
count-steps r = omega (arith, count-work r)
