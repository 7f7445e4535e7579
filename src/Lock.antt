-- ===== src/Lock.antt =====
-- infra/session_lock.py: `SessionLock`, a lock of tasks on several event loops. Its guard makes each
-- operation below one step. A number stands for one call of `acquire`, whose waiter is dead when its
-- future was cancelled or its loop is closed. `release` is two steps: `release` here grants the lock
-- under the guard, and after that `call_soon_threadsafe` is posted (`post`) or fails, which releases once
-- more.
pub mod Exclusion
use openqqwaifu.Prelude.{
  ℕ, ◌==◌, Bool, true, false, not, Option, none, some, List, [], ◌∷◌, ◌++◌, if◌then◌else◌, select,
  update_where, any, ◌≡◌,
}
use openqqwaifu.Result.{Result, Error, ok, err, unlocked, require, ◌>>=◌, ◌>>◌}

pub record Waiter : Type 0 where
  pub task : ℕ
  pub dead : Bool

pub record SessionLock : Type 0 where
  pub held : Bool
  pub waiters : List Waiter

-- The first part of `acquire`; the answer is whether the task has the lock at once.
unfoldable pub acquire : ℕ → SessionLock → SessionLock × Bool
acquire task l =
    if l.held
    then (record l { waiters = l.waiters ++ record { task = task; dead = false } ∷ [] }, false)
    else (record l { held = true }, true)

-- The first waiter that lives, and those after it.
unfoldable pub hand_over : List Waiter → Option Waiter × List Waiter
hand_over [] = (none, [])
hand_over (w ∷ ws) = let rest = hand_over ws in if w.dead then rest else (some w, ws)

abbrev pub is_some : Option Waiter → Bool
is_some none = false
is_some (some w) = true

-- `release` as far as it holds the guard; the answer is the waiter that is granted the lock.
unfoldable pub release : SessionLock → Result (SessionLock × Option Waiter)
release l = do
  require l.held unlocked
  let next = hand_over l.waiters
  ok (record { held = is_some next.0; waiters = next.1 }, next.0)

abbrev pub granted : Option Waiter → List ℕ
granted none = []
granted (some w) = w.task ∷ []

-- The lock with the calls of `acquire` so far, those that were granted it and have not given it back,
-- and the grants that are not posted yet. `returned` says that a grant whose post failed had been
-- given back before.
pub record System : Type 0 where
  pub lock : SessionLock
  pub calls : List ℕ
  pub holders : List ℕ
  pub unposted : List ℕ
  pub returned : Bool

abbrev pub add : Bool → ℕ → List ℕ → List ℕ
add now task holders = if now then task ∷ holders else holders

-- self._waiters.remove(waiter), of a task that was cancelled before it was granted the lock
unfoldable pub withdraw : ℕ → SessionLock → SessionLock
withdraw task l = record l { waiters = select (λ w. not (w.task == task)) l.waiters }

abbrev kill : Waiter → Waiter
kill w = record w { dead = true }

-- A waiter's future is cancelled, or its loop closed.
unfoldable pub expire : ℕ → SessionLock → SessionLock
expire task l = record l { waiters = update_where (λ w. w.task == task) kill l.waiters }

abbrev pub arrive : ℕ → System → System
arrive task s = record s {
  lock = (acquire task s.lock).0;
  calls = task ∷ s.calls;
  holders = add (acquire task s.lock).1 task s.holders;
}

-- The first half of a release of the lock by one of its holders; the others are `rest`.
abbrev pub grant : List ℕ → SessionLock → Option Waiter → System → System
grant rest l w s = record s {
  lock = l;
  holders = granted w ++ rest;
  unposted = granted w ++ s.unposted;
}

-- The second half, for the grant that `rest` leaves out.
abbrev pub post : List ℕ → System → System
post rest s = record s { unposted = rest }

-- The steps of the tasks and of the loops, in any order.
pub data Step (s : System) : System → Type 0 where
  enter : (task : ℕ) → any (λ t. t == task) s.calls ≡ false → Step s (arrive task s)
  -- A holder is done, or was cancelled after the lock was granted to it.
  leave :
      (task : ℕ) (front rest : List ℕ) (l : SessionLock) (w : Option Waiter)
      → s.holders ≡ front ++ task ∷ rest
      → release s.lock ≡ ok (l, w)
      → Step s (grant (front ++ rest) l w s)
  -- `call_soon_threadsafe` returns.
  posted :
      (task : ℕ) (front rest : List ℕ)
      → s.unposted ≡ front ++ task ∷ rest
      → Step s (post (front ++ rest) s)
  -- It raises, and the waiter still has the lock, which is released for it.
  post_failed :
      (task : ℕ) (front rest before after : List ℕ) (l : SessionLock) (w : Option Waiter)
      → s.unposted ≡ front ++ task ∷ rest
      → s.holders ≡ before ++ task ∷ after
      → release s.lock ≡ ok (l, w)
      → Step s (grant (before ++ after) l w (post (front ++ rest) s))
  -- It raises, and the waiter has given the lock back, which is released once more.
  post_failed_late :
      (task : ℕ) (front rest : List ℕ) (l : SessionLock) (w : Option Waiter)
      → s.unposted ≡ front ++ task ∷ rest
      → any (λ t. t == task) s.holders ≡ false
      → release s.lock ≡ ok (l, w)
      → Step s (record (grant s.holders l w (post (front ++ rest) s)) { returned = true })
  -- The same, where nobody holds the lock: the second release raises.
  post_failed_free :
      (task : ℕ) (front rest : List ℕ) (error : Error)
      → s.unposted ≡ front ++ task ∷ rest
      → release s.lock ≡ err error
      → Step s (post (front ++ rest) s)
  give_up : (task : ℕ) → Step s (record s { lock = withdraw task s.lock })
  die : (task : ℕ) → Step s (record s { lock = expire task s.lock })

abbrev pub new_system : System
new_system = record {
  lock = record { held = false; waiters = [] };
  calls = [];
  holders = [];
  unposted = [];
  returned = false;
}

pub data Reach : System → Type 0 where
  fresh : Reach new_system
  next : {s s' : System} → Reach s → Step s s' → Reach s'
