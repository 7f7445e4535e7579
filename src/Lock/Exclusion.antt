-- ===== src/Lock/Exclusion.antt =====
-- Mutual exclusion over any sequence of the steps of the lock.
use openqqwaifu.Prelude.{
  ℕ, ◌≡◌, ◌≢◌, ◌∙◌, sym, inl, inr, Bool-cases, refl, true, false, Option, none, some, List, [], ◌∷◌,
  ◌++◌, arith,
}
use openqqwaifu.Result.{ok}
use openqqwaifu.Lock.{
  Waiter, SessionLock, System, Step, Reach, fresh, next, enter, leave, posted, post_failed,
  post_failed_late, post_failed_free, give_up, die, arrive, grant, post, acquire, hand_over,
  release, is_some, withdraw, expire,
}

-- The lock is held by one task, or free with no one waiting.
pub data IsSound (s : System) : Type 0 where
  owned : (task : ℕ) → s.lock.held ≡ true → s.holders ≡ task ∷ [] → IsSound s
  free : s.lock.held ≡ false → s.lock.waiters ≡ [] → s.holders ≡ [] → IsSound s

enter-IsSound : (task : ℕ) (s : System) → IsSound s → IsSound (arrive task s)
unfolding acquire
enter-IsSound task s (owned t h k) = owned t (ground (arith, h)) (ground (arith, h, k))
enter-IsSound task s (free h w k) = owned task (ground (arith, h)) (ground (arith, h, k))

hand_over-none : (ws : List Waiter) → (hand_over ws).0 ≡ none → (hand_over ws).1 ≡ []
unfolding hand_over
hand_over-none [] h = refl
hand_over-none (w ∷ ws) h = elim (Bool-cases w.dead) [
  | inl dead ↦ rw dead (hand_over-none ws (rw dead at h))
  | inr lives ↦ absurd (cc (rw lives at h))
]

release_inv :
    (k l : SessionLock) (w : Option Waiter)
    → release k ≡ ok (l, w)
    → (w ≡ (hand_over k.waiters).0) × (l.waiters ≡ (hand_over k.waiters).1) × (l.held ≡ is_some w)
unfolding release
release_inv k l w e = (ground (arith, e), ground (arith, e), ground (arith, e))

-- The only one of a list is taken out.
one_left : (front rest : List ℕ) (task t : ℕ) → front ++ task ∷ rest ≡ t ∷ [] → front ++ rest ≡ []
one_left [] rest task t e = cc e
one_left (x ∷ []) rest task t e = absurd (cc e)
one_left (x ∷ y ∷ front) rest task t e = absurd (cc e)

none_left : (front rest : List ℕ) (task : ℕ) → front ++ task ∷ rest ≢ []
none_left [] rest task e = absurd (cc e)
none_left (x ∷ front) rest task e = absurd (cc e)

-- One of the holders gives the lock back.
leave-IsSound :
    (s : System) (task : ℕ) (front rest : List ℕ) (l : SessionLock) (w : Option Waiter)
    → s.holders ≡ front ++ task ∷ rest
    → release s.lock ≡ ok (l, w)
    → IsSound s
    → IsSound (grant (front ++ rest) l w s)
leave-IsSound s task front rest l w own e (free h waiting k) =
    absurd (none_left front rest task (sym own ∙ k))
leave-IsSound s task front rest l (some v) own e (owned t h k) =
    let (same, left, held) = release_inv s.lock l (some v) e in
    let alone : front ++ rest ≡ [] = one_left front rest task t (sym own ∙ k) in
    owned v.task held (rw alone refl)
leave-IsSound s task front rest l none own e (owned t h k) =
    let (same, left, held) = release_inv s.lock l none e in
    free held (left ∙ hand_over-none s.lock.waiters (sym same))
      (one_left front rest task t (sym own ∙ k))

post-IsSound : (s : System) (rest : List ℕ) → IsSound s → IsSound (post rest s)
post-IsSound s rest (owned t h k) = owned t h k
post-IsSound s rest (free h w k) = free h w k

give_up-IsSound :
    (task : ℕ) (s : System) → IsSound s → IsSound (record s { lock = withdraw task s.lock })
unfolding withdraw
give_up-IsSound task s (owned t h k) = owned t h k
give_up-IsSound task s (free h w k) = free h (rw w refl) k

die-IsSound : (task : ℕ) (s : System) → IsSound s → IsSound (record s { lock = expire task s.lock })
unfolding expire
die-IsSound task s (owned t h k) = owned t h k
die-IsSound task s (free h w k) = free h (rw w refl) k

-- Sound as long as no grant was given back before its post failed.
abbrev Holds : System → Type 0
Holds s = s.returned ≡ false → IsSound s

Step-Holds : {s s' : System} → Step s s' → Holds s → Holds s'
Step-Holds {s} (enter task new) h r = enter-IsSound task s (h r)
Step-Holds {s} (leave task front rest l w own e) h r =
    leave-IsSound s task front rest l w own e (h r)
Step-Holds {s} (posted task front rest waits) h r = post-IsSound s (front ++ rest) (h r)
Step-Holds {s} (post_failed task front rest before after l w waits own e) h r =
    leave-IsSound (post (front ++ rest) s) task before after l w own e
      (post-IsSound s (front ++ rest) (h r))
Step-Holds {s} (post_failed_late task front rest l w waits gone e) h r = absurd (cc r)
Step-Holds {s} (post_failed_free task front rest error waits e) h r =
    post-IsSound s (front ++ rest) (h r)
Step-Holds {s} (give_up task) h r = give_up-IsSound task s (h r)
Step-Holds {s} (die task) h r = die-IsSound task s (h r)

Reach-Holds : {s : System} → Reach s → Holds s
Reach-Holds fresh r = free refl refl refl
Reach-Holds (next before step) r = Step-Holds step (Reach-Holds before) r

-- After any steps from a new lock, where no waiter gave a granted lock back before the post of its grant
-- failed: either one task holds the lock, or it is free, no task holds it and no task waits.
pub Reach-IsSound : {s : System} → Reach s → s.returned ≡ false → IsSound s
Reach-IsSound r kept = Reach-Holds r kept
