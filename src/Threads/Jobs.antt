-- ===== src/Threads/Jobs.antt =====
-- Every job that enters the queue is run once.
use mathlib.Core.List.{Perm, perm_middle}
use mathlib.Core.List.Perm
use ctranslate.Prelude.{ℕ, List, [], ◌∷◌, ◌++◌, ◌≡◌, sym, subst, append_assoc, append-nil, ap}
use ctranslate.Threads.System.{
  Pool, Internal, enqueue, block, enqueue_roused, block_again, wake_one, wake_none, take_ready,
  take_woken, sleep, sleep_again, rouse_one, rouse_none, finish, wake_all, stop_ready, stop_woken,
  internal, post, close, close_again, spurious_get, spurious_put, Reach, start, later,
}
use ctranslate.Threads.Invariant.{Reach-Inv}

-- The jobs that left the queue are those that ended and those that run.
abbrev Accounted : Pool → Type 0
Accounted s = Perm s.started (s.finished ++ s.running)

module _ (started finished running : List ℕ) (h : Perm started (finished ++ running)) where
  takes : (j : ℕ) → Perm (started ++ j ∷ []) (finished ++ j ∷ running)
  takes j = Perm.trans (Perm.append_right (j ∷ []) h) (
      subst (λ l. Perm l (finished ++ j ∷ running)) (sym (append_assoc finished running (j ∷ [])))
        (Perm.append_left finished
          (subst (Perm _) (ap (◌∷◌ j) (append-nil running)) (perm_middle running []))))

  ends :
      (before behind : List ℕ) (j : ℕ)
      → running ≡ before ++ j ∷ behind
      → Perm started ((finished ++ j ∷ []) ++ (before ++ behind))
  ends before behind j e =
      rw (append_assoc finished (j ∷ []) (before ++ behind))
        (Perm.trans h (Perm.append_left finished (rw e (perm_middle before behind))))

Internal-Accounted : {s t : Pool} → Internal s t → Accounted s → Accounted t
Internal-Accounted (enqueue before behind j h r) v = v
Internal-Accounted (take_ready n j q h k) v = takes _ _ _ v j
Internal-Accounted (take_woken n j q h k) v = takes _ _ _ v j
Internal-Accounted (finish before behind j h) v = ends _ _ _ v before behind j h
Internal-Accounted (block before behind j h r) v = v
Internal-Accounted (enqueue_roused before behind j h r) v = v
Internal-Accounted (block_again before behind j h r) v = v
Internal-Accounted (wake_one n m h k) v = v
Internal-Accounted (wake_none n h k) v = v
Internal-Accounted (sleep n h k o) v = v
Internal-Accounted (sleep_again n h k o) v = v
Internal-Accounted (rouse_one n before behind j h k) v = v
Internal-Accounted (rouse_none n h k) v = v
Internal-Accounted (wake_all n h) v = v
Internal-Accounted (stop_ready n h k c) v = v
Internal-Accounted (stop_woken n h k c) v = v

Reach-Accounted : {n size : ℕ} {s : Pool} → Reach n size s → Accounted s
Reach-Accounted start = Perm.nil
Reach-Accounted (later r (internal i)) = Internal-Accounted i (Reach-Accounted r)
Reach-Accounted (later r (post j)) = Reach-Accounted r
Reach-Accounted (later r close) = Reach-Accounted r
Reach-Accounted (later r (close_again c)) = Reach-Accounted r
Reach-Accounted (later r (spurious_get m h)) = Reach-Accounted r
Reach-Accounted (later r (spurious_put before behind j h)) = Reach-Accounted r

-- In every reachable state the jobs that have entered the queue are, each once, those that have
-- ended, those that a worker runs, and those that wait in the queue.
pub Reach-jobs :
    {n size : ℕ} {s : Pool}
    → Reach n size s
    → Perm s.accepted ((s.finished ++ s.running) ++ s.queue)
Reach-jobs {s} r =
    subst (λ l. Perm l ((s.finished ++ s.running) ++ s.queue)) (sym (Reach-Inv r).fifo)
      (Perm.append_right s.queue (Reach-Accounted r))
