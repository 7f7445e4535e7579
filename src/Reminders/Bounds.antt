-- ===== src/Reminders/Bounds.antt =====
-- How many reminders one `tick` puts into the inbox.
use openqqwaifu.Prelude.{
  ℕ, ◌+◌, ◌≤◌, ◌≡◌, ◌∙◌, ◌⊎◌, refl, inl, inr, String, Bool, false, not, List, [], ◌∷◌, arith,
  length, length-snoc, select, ltb, leb, ◌||◌, Bool-cases,
}
use openqqwaifu.Result.{
  ok, Ensures, Ensures-bind, Ensures-if, Ensures-ok, Ensures-option, Ensures-imp,
}
use openqqwaifu.Platform.{Platform}
use openqqwaifu.Tables.{Task, Db, pending_count}
use openqqwaifu.Inbox.{take_seq}
use openqqwaifu.Reminders.{is_waiting, is_enqueued, eligibility, invalidate, contact_blocked}
use openqqwaifu.Reminders.Tick.{
  Loop, order_tasks, free, set_db, enqueue, offer, is_scheduled, mem, tick_task, tick_loop, tick,
  loop_start, due_event,
}
use openqqwaifu.Reminders.Counts.{
  rows, enqueued, rows-invalidate, rows-contact_blocked, rows-take_seq, enqueued-order_tasks,
  enqueued-select,
}

module _ (start : Db) (max_pending : ℕ) where
  -- The variables of the loop after rounds in which `k` tasks were enqueued ones.
  record IsBounded (k : ℕ) (s : Loop) : Type 0 where
    grown : rows s.db ≡ rows start + s.made
    counted : s.pending ≡ pending_count start + s.made
    few : s.made ≤ 32
    freed : s.freed ≤ k
    room : (s.made ≡ 0) ⊎ (s.pending ≤ max_pending + s.freed)

  set_db-IsBounded :
      (k : ℕ) (s : Loop) (db : Db) → rows db ≡ rows s.db → IsBounded k s → IsBounded k (set_db s db)
  set_db-IsBounded k s db same h = record {
    grown = same ∙ h.grown;
    counted = h.counted;
    few = h.few;
    freed = h.freed;
    room = h.room;
  }

  weaken-IsBounded : (k m : ℕ) (s : Loop) → k ≤ m → IsBounded k s → IsBounded m s
  weaken-IsBounded k m s le h = record {
    grown = h.grown;
    counted = h.counted;
    few = h.few;
    freed = omega (arith, le, h.freed);
    room = h.room;
  }

  free-IsBounded :
      (k : ℕ) (task : Task) (s : Loop)
      → IsBounded k s
      → IsBounded (enqueued (task ∷ []) + k) (free task s)
  free-IsBounded k task s h = elim (Bool-cases (is_enqueued task.state)) [
    | inl e ↦ rw e (record {
      grown = h.grown;
      counted = h.counted;
      few = h.few;
      freed = omega (arith, h.freed);
      room = elim h.room [ inl z ↦ inl z | inr le ↦ inr (omega (arith, le)) ];
    })
    | inr e ↦ rw e (weaken-IsBounded k (0 + k) s (omega arith) h)
  ]

  enqueue-IsBounded :
      (k : ℕ) (uuid : ℕ → String) (now : ℕ) (task : Task) (s : Loop)
      → IsBounded k s
      → leb (max_pending + s.freed) s.pending || leb 32 s.made ≡ false
      → Ensures (IsBounded (enqueued (task ∷ []) + k)) (enqueue uuid now task s)
  unfolding enqueue
  enqueue-IsBounded k uuid now task s h fits =
      Ensures-bind (IsBounded (enqueued (task ∷ []) + k)) (take_seq s.db task.conversation_id) _
        λ r e.
          let same =
            Ensures-ok (λ (r : Db × ℕ). rows r.0 ≡ rows s.db) _
              (rows-take_seq s.db task.conversation_id) e in
          record {
            grown = omega (
              arith,
              h.grown,
              same,
              length-snoc r.0.inbox (due_event task (uuid s.made) r.1 now),
            );
            counted = omega (arith, h.counted);
            few = ground (arith, h.few);
            freed = omega (arith, h.freed);
            room = inr (ground arith);
          }

  offer-IsBounded :
      (k : ℕ) (uuid : ℕ → String) (now : ℕ) (task : Task) (s : Loop)
      → IsBounded k s
      → Ensures (IsBounded (enqueued (task ∷ []) + k)) (offer uuid now max_pending task s)
  unfolding offer
  offer-IsBounded k uuid now task s h =
      let Q = IsBounded (enqueued (task ∷ []) + k) in
      let kept : Q s = weaken-IsBounded k (enqueued (task ∷ []) + k) s (omega arith) h in
      Ensures-if Q
        (not (is_scheduled task.state)
          || (ltb now task.due_at || mem task.conversation_id s.active))
        _ _ (λ _. kept)
        λ _.
          Ensures-if Q (leb (max_pending + s.freed) s.pending || leb 32 s.made) _ _ (λ _. kept)
            (λ fits. enqueue-IsBounded k uuid now task s h fits)

  tick_task-IsBounded :
      (k : ℕ) (os : Platform) (enabled : String → Bool) (uuid : ℕ → String) (now : ℕ) (task : Task)
      (s : Loop)
      → IsBounded k s
      → Ensures
          (IsBounded (enqueued (task ∷ []) + k))
          (tick_task os enabled uuid now max_pending task s)
  unfolding tick_task
  tick_task-IsBounded k os enabled uuid now task s h =
      let Q = IsBounded (enqueued (task ∷ []) + k) in
      Ensures-option Q (eligibility s.db task enabled now) _ _
        (λ _.
          Ensures-if Q (leb task.due_at now) _ _
            (λ _. Ensures-bind Q (contact_blocked os s.db task now) _ λ r g.
              let same =
                Ensures-ok (λ (r : Db × Bool). rows r.0 ≡ rows s.db) _
                  (rows-contact_blocked os s.db task now) g in
              let kept = set_db-IsBounded k s r.0 same h in
              Ensures-if Q r.1 _ _ (λ _. free-IsBounded k task (set_db s r.0) kept)
                (λ _. offer-IsBounded k uuid now task (set_db s r.0) kept))
            (λ _. offer-IsBounded k uuid now task s h))
        λ b _. free-IsBounded k task (set_db s (invalidate s.db task b.0 b.1 now)) (
          set_db-IsBounded k s (invalidate s.db task b.0 b.1 now)
            (rows-invalidate s.db task b.0 b.1 now) h)

  tick_loop-IsBounded :
      (k : ℕ) (os : Platform) (enabled : String → Bool) (uuid : ℕ → String) (now : ℕ)
      (tasks : List Task) (s : Loop)
      → IsBounded k s
      → Ensures (IsBounded (enqueued tasks + k)) (tick_loop os enabled uuid now max_pending tasks s)
  unfolding tick_loop
  tick_loop-IsBounded k os enabled uuid now [] s h = weaken-IsBounded k (0 + k) s (omega arith) h
  tick_loop-IsBounded k os enabled uuid now (t ∷ ts) s h =
      Ensures-bind (IsBounded (enqueued (t ∷ ts) + k))
        (tick_task os enabled uuid now max_pending t s) _
        λ s' g.
          Ensures-imp (IsBounded (enqueued ts + (enqueued (t ∷ []) + k)))
            (IsBounded (enqueued (t ∷ ts) + k))
            (λ r b.
              weaken-IsBounded (enqueued ts + (enqueued (t ∷ []) + k)) (enqueued (t ∷ ts) + k) r
                (ground arith) b)
            (tick_loop os enabled uuid now max_pending ts s')
            (tick_loop-IsBounded (enqueued (t ∷ []) + k) os enabled uuid now ts s' (
              Ensures-ok (IsBounded (enqueued (t ∷ []) + k)) _
                (tick_task-IsBounded k os enabled uuid now t s h) g))

-- What a `tick` of `db` leaves, with the number of the new rows.
abbrev Added : ℕ → Db → Db × ℕ → Type 0
Added max_pending db r =
    (length r.0.inbox ≡ length db.inbox + r.1)
    × (r.1 ≤ 32)
    × ((r.1 ≡ 0) ⊎ (pending_count db + r.1 ≤ max_pending + enqueued db.tasks))

tick-Added :
    (os : Platform) (enabled : String → Bool) (uuid : ℕ → String) (now max_pending : ℕ) (db : Db)
    → Ensures (Added max_pending db) (tick os enabled uuid now max_pending db)
unfolding tick
tick-Added os enabled uuid now max_pending db =
    let waiting = order_tasks (select (λ t. is_waiting t.state) db.tasks) in
    Ensures-bind (Added max_pending db)
      (tick_loop os enabled uuid now max_pending waiting (loop_start db)) _
      λ s e.
        let h : IsBounded db max_pending (enqueued waiting + 0) s =
          Ensures-ok (IsBounded db max_pending (enqueued waiting + 0)) _
            (tick_loop-IsBounded db max_pending 0 os enabled uuid now waiting (loop_start db)
              (record {
                grown = omega arith;
                counted = omega arith;
                few = omega arith;
                freed = omega arith;
                room = inl refl;
              }))
            e in
        (
          h.grown,
          h.few,
          elim h.room [
            | inl z ↦ inl z
            | inr le ↦ inr (
                omega (
                  arith,
                  le,
                  h.counted,
                  h.freed,
                  enqueued-order_tasks (select (λ t. is_waiting t.state) db.tasks),
                  enqueued-select db.tasks,
                ))
          ],
        )

-- A `tick` that succeeds adds as many rows to the inbox as it reports, at most 32. It adds none
-- unless the undone events with the new ones fit into `max_pending`, where each task that was
-- already enqueued may make room for one more.
pub tick_bounded :
    (os : Platform) (enabled : String → Bool) (uuid : ℕ → String) (now max_pending : ℕ)
    (db db' : Db) (made : ℕ)
    → tick os enabled uuid now max_pending db ≡ ok (db', made)
    → (length db'.inbox ≡ length db.inbox + made)
      × (made ≤ 32)
      × ((made ≡ 0) ⊎ (pending_count db + made ≤ max_pending + enqueued db.tasks))
tick_bounded os enabled uuid now max_pending db db' made e =
    Ensures-ok (Added max_pending db) _ (tick-Added os enabled uuid now max_pending db) e
