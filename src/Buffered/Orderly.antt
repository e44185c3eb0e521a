-- ===== src/Buffered/Orderly.antt =====
-- What holds of the queues, the thread and the notifications, and what a flush leaves of it.
use ctranslate.Prelude.{
  All, ℕ, zero, suc, ◌-◌, ◌<◌, Bool, true, false, List, [], ◌∷◌, ◌++◌, length, take, drop, none,
  some, is_nil, ◌⊎◌, ◌≡◌, refl, sym, ap, ◌∙◌, arith, append_assoc, append-nil,
}
use ctranslate.Batching.Defs.{Example}
use ctranslate.Buffered.Pairs.{pairs}
use ctranslate.Buffered.System.{
  Place, top, asleep, woken, exited, posting, Wrapper, must_flush, flush_size, leave, flush,
}

abbrev pub posted_pairs : List (List Example × List ℕ) → List (Example × ℕ)
posted_pairs [] = []
posted_pairs ((es, ps) ∷ posts) = pairs es ps ++ posted_pairs posts

-- What the thread took from the queues and has not posted.
abbrev pub in_hand : Place → List (Example × ℕ)
in_hand (posting es ps stop) = pairs es ps
in_hand top = []
in_hand asleep = []
in_hand woken = []
in_hand exited = []

-- A thread that read the flag in its last round has left nothing.
abbrev pub IsLast : Place → Bool → List Example → Type 0
IsLast exited stop es = (stop ≡ true) × (es ≡ [])
IsLast (posting es' ps true) stop es = (stop ≡ true) × (es ≡ [])
IsLast (posting es' ps false) stop es = Unit {0}
IsLast top stop es = Unit {0}
IsLast asleep stop es = Unit {0}
IsLast woken stop es = Unit {0}

-- A thread that sleeps has no reason to flush, or will be notified.
abbrev pub IsHeard : Place → Bool → ℕ → Type 0
IsHeard asleep due notifiers = (due ≡ false) ⊎ (0 < notifiers)
IsHeard top due notifiers = Unit {0}
IsHeard woken due notifiers = Unit {0}
IsHeard exited due notifiers = Unit {0}
IsHeard (posting es ps stop) due notifiers = Unit {0}

-- As many promises as examples in what the thread took.
abbrev pub IsMatched : Place → Type 0
IsMatched (posting es ps stop) = length es ≡ length ps
IsMatched top = Unit {0}
IsMatched asleep = Unit {0}
IsMatched woken = Unit {0}
IsMatched exited = Unit {0}

abbrev pub AllMatched : List (List Example × List ℕ) → Type 0
AllMatched = All (λ x. length x.0 ≡ length x.1)

pub record IsOrderly (w : Wrapper) : Type 0 where
  pub even : length w.examples ≡ length w.promises
  pub fifo : w.requests ≡ posted_pairs w.posts ++ (in_hand w.thread ++ pairs w.examples w.promises)
  pub last : IsLast w.thread w.stop w.examples
  pub heard : IsHeard w.thread (must_flush w) w.notifiers
  pub in_hand_matched : IsMatched w.thread
  pub posts_matched : AllMatched w.posts

-- In `wait_for`, or before it.
abbrev pub IsWaiting : Place → Type 0
IsWaiting top = Unit {0}
IsWaiting asleep = Unit {0}
IsWaiting woken = Unit {0}
IsWaiting exited = ⊥
IsWaiting (posting es ps stop) = ⊥

pub in_hand-IsWaiting : (p : Place) → IsWaiting p → in_hand p ≡ []
in_hand-IsWaiting top h = refl
in_hand-IsWaiting asleep h = refl
in_hand-IsWaiting woken h = refl
in_hand-IsWaiting exited h = absurd h
in_hand-IsWaiting (posting es ps stop) h = absurd h

pub IsMatched-IsWaiting : (p : Place) → IsWaiting p → IsMatched p
IsMatched-IsWaiting top h = tt
IsMatched-IsWaiting asleep h = tt
IsMatched-IsWaiting woken h = tt
IsMatched-IsWaiting exited h = absurd h
IsMatched-IsWaiting (posting es ps stop) h = absurd h

pub posted_pairs-append :
    (posts : List (List Example × List ℕ)) (es : List Example) (ps : List ℕ)
    → posted_pairs (posts ++ (es, ps) ∷ []) ≡ posted_pairs posts ++ pairs es ps
posted_pairs-append [] es ps = append-nil (pairs es ps)
posted_pairs-append ((fs, qs) ∷ posts) es ps =
    ap (◌++◌ (pairs fs qs)) (posted_pairs-append posts es ps)
    ∙ sym (append_assoc (pairs fs qs) (posted_pairs posts) (pairs es ps))

pub nil_of_is_nil : {A : Type 0} (xs : List A) → is_nil xs ≡ true → xs ≡ []
nil_of_is_nil [] h = refl
nil_of_is_nil (x ∷ xs) h = cc

pub drop-length : {A : Type 0} (xs : List A) → drop (length xs) xs ≡ []
drop-length [] = refl
drop-length (x ∷ xs) = drop-length xs

pub length-drop : {A : Type 0} (n : ℕ) (xs : List A) → length (drop n xs) ≡ length xs - n
length-drop zero xs = omega arith
length-drop (suc n) [] = omega arith
length-drop (suc n) (x ∷ xs) = omega (arith, length-drop n xs)

pub leave-in_hand : (stop : Bool) → in_hand (leave stop) ≡ []
unfolding leave
leave-in_hand true = refl
leave-in_hand false = refl

pub leave-IsMatched : (stop : Bool) → IsMatched (leave stop)
unfolding leave
leave-IsMatched true = tt
leave-IsMatched false = tt

pub leave-IsLast : (stop : Bool) (es : List Example) → es ≡ [] → IsLast (leave stop) stop es
unfolding leave
leave-IsLast true es h = (refl, h)
leave-IsLast false es h = tt

pub leave-IsHeard : (stop due : Bool) (n : ℕ) → IsHeard (leave stop) due n
unfolding leave
leave-IsHeard true due n = tt
leave-IsHeard false due n = tt

abbrev pub flushed : ℕ → Wrapper → Wrapper
flushed n w = record w {
  thread = posting (take n w.examples) (take n w.promises) w.stop;
  examples = drop n w.examples;
  promises = drop n w.promises;
}

pub flush_empty :
    (w : Wrapper) → is_nil w.examples ≡ true → flush w ≡ some (record w { thread = leave w.stop })
unfolding flush
flush_empty w h = rw h refl

pub flush_taken :
    (w : Wrapper) (n : ℕ)
    → is_nil w.examples ≡ false
    → flush_size w.max_batch_size (length w.examples) w.stop ≡ some n
    → flush w ≡ some (flushed n w)
unfolding flush
flush_taken w n h k = rw (h, flush) (rw (k, flush) refl)

pub flush_stuck :
    (w : Wrapper)
    → is_nil w.examples ≡ false
    → flush_size w.max_batch_size (length w.examples) w.stop ≡ none
    → flush w ≡ none
unfolding flush
flush_stuck w h k = rw (h, flush) (rw (k, flush) refl)

-- When it stops, the thread takes all that is there.
pub flush_size-stop : (m n k : ℕ) (stop : Bool) → stop ≡ true → flush_size m n stop ≡ some k → k ≡ n
unfolding flush_size
flush_size-stop m n k true h e = ground (arith, e)
flush_size-stop m n k false h e = cc

pub posting-IsLast :
    (es fs : List Example) (ps : List ℕ) (stop : Bool)
    → (stop ≡ true → fs ≡ [])
    → IsLast (posting es ps stop) stop fs
posting-IsLast es fs ps true h = (refl, h refl)
posting-IsLast es fs ps false h = tt
