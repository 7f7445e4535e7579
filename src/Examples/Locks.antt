-- ===== src/Examples/Locks.antt =====
-- The lock with a few tasks: the theorem where a handover fails, and a run that the theorem excludes.
use openqqwaifu.Prelude.{ℕ, refl, true, false, some, List, [], ◌∷◌}
use openqqwaifu.Lock.{
  Waiter, SessionLock, System, Reach, fresh, next, enter, leave, posted, post_failed,
  post_failed_late, acquire, release, hand_over,
}
use openqqwaifu.Lock.Exclusion.{IsSound, Reach-IsSound}

abbrev waiting : ℕ → Waiter
waiting task = record { task = task; dead = false }

abbrev taken : List Waiter → SessionLock
taken ws = record { held = true; waiters = ws }

-- Task 1 has the lock; 2, 3 and 4 wait.
abbrev queue : System
queue = record {
  lock = taken (waiting 2 ∷ waiting 3 ∷ waiting 4 ∷ []);
  calls = 4 ∷ 3 ∷ 2 ∷ 1 ∷ [];
  holders = 1 ∷ [];
  unposted = [];
  returned = false;
}

queued : Reach queue
unfolding acquire
queued = next (next (next (next fresh (enter 1 refl)) (enter 2 refl)) (enter 3 refl)) (enter 4 refl)

-- Task 2 is granted the lock.
abbrev passed_on : System
passed_on = record queue {
  lock = taken (waiting 3 ∷ waiting 4 ∷ []);
  holders = 2 ∷ [];
  unposted = 2 ∷ [];
}

passing : Reach passed_on
unfolding release hand_over
passing =
    next queued (leave 1 [] [] (taken (waiting 3 ∷ waiting 4 ∷ [])) (some (waiting 2)) refl refl)

-- Its loop is closed by then, and task 3 is granted the lock.
abbrev skipped : System
skipped = record queue { lock = taken (waiting 4 ∷ []); holders = 3 ∷ []; unposted = 3 ∷ [] }

skipping : Reach skipped
unfolding release hand_over
skipping =
    next passing
      (post_failed 2 [] [] [] [] (taken (waiting 4 ∷ [])) (some (waiting 3)) refl refl refl)

Reach-IsSound_example : IsSound skipped
Reach-IsSound_example = Reach-IsSound skipping refl

-- Task 2 is cancelled and gives the lock back to task 3, before the post of its own grant fails, which
-- gives the lock to task 4 as well.
abbrev doubled : System
doubled = record queue { lock = taken []; holders = 4 ∷ 3 ∷ []; unposted = 4 ∷ []; returned = true }

doubling : Reach doubled
unfolding release hand_over
doubling =
    next
      (next (next passing (leave 2 [] [] (taken (waiting 4 ∷ [])) (some (waiting 3)) refl refl))
        (posted 3 [] (2 ∷ []) refl))
      (post_failed_late 2 [] [] (taken []) (some (waiting 4)) refl refl refl)
