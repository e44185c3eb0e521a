-- ===== src/Buffered/Ending.antt =====
-- What the buffer promises: the order of the requests, the wake-ups, and an end.
use ctranslate.Prelude.{
  ℕ, ◌<◌, true, false, [], ◌++◌, length, ◌⊎◌, ◌≡◌, ap, subst, ◌∙◌, inl, inr, append-nil,
}
use ctranslate.Buffered.Pairs.{pairs}
use ctranslate.Buffered.System.{asleep, exited, Wrapper, must_flush, Reach}
use ctranslate.Buffered.Orderly.{posted_pairs, in_hand, IsLast, IsHeard}
use ctranslate.Buffered.Invariant.{Reach-IsOrderly}

-- In every reachable state, the requests in the order in which they were made, each with its own
-- promise, are those that were posted, those that the thread took, and those in the two queues, and
-- the queues are of one length.
pub Reach-requests :
    {m n : ℕ} {w : Wrapper}
    → Reach m n w
    → (w.requests ≡ posted_pairs w.posts ++ (in_hand w.thread ++ pairs w.examples w.promises))
      × (length w.examples ≡ length w.promises)
Reach-requests r = let v = Reach-IsOrderly r in (v.fifo, v.even)

-- In every reachable state whose thread is out of its loop, all requests were posted, in order, each
-- with its own promise.
pub Reach-exited :
    {m n : ℕ} {w : Wrapper} → Reach m n w → w.thread ≡ exited → w.requests ≡ posted_pairs w.posts
unfolding pairs
Reach-exited {w} r h =
    let v = Reach-IsOrderly r in
    let left : w.examples ≡ [] = (subst (λ p. IsLast p w.stop w.examples) h v.last).1 in
    v.fifo
    ∙ ap (λ p. posted_pairs w.posts ++ (in_hand p ++ pairs w.examples w.promises)) h
    ∙ ap (λ es. posted_pairs w.posts ++ pairs es w.promises) left
    ∙ append-nil (posted_pairs w.posts)

-- In every reachable state in which the thread sleeps and the buffer is full or the wrapper is being
-- destroyed, a notification is on its way.
pub Reach-notified :
    {m n : ℕ} {w : Wrapper}
    → Reach m n w
    → w.thread ≡ asleep
    → must_flush w ≡ true
    → 0 < w.notifiers
Reach-notified {w} r h due =
    let heard : (must_flush w ≡ false) ⊎ (0 < w.notifiers) =
      subst (λ p. IsHeard p (must_flush w) w.notifiers) h (Reach-IsOrderly r).heard in
    elim heard [ inl e ↦ cc | inr k ↦ k ]
