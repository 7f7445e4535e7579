-- ===== src/Turns/Order.antt =====
-- Which event of a conversation `next_work` takes.
use mathlib.Core.List.{Mem, mem-cons_self, mem-cons_of_mem}
use mathlib.Core.Option.{some_inj}
use openqqwaifu.Prelude.{
  ℕ, ◌≤◌, ◌≡◌, refl, sym, subst, String, Bool, true, false, not, Option, none, some, List, [], ◌∷◌,
  All, All-imp, select, inl, inr, Bool-cases, arith, ltb, ltb→lt, ltb→ge,
}
use openqqwaifu.Result.{
  ok, Ensures, Ensures-bind, Ensures-if, Ensures-ok, Ensures-option, Ensures-imp,
}
use openqqwaifu.Platform.{Platform}
use openqqwaifu.Tables.{Conversation, Inbound, Kind, Event, Turn, Outbox, Db, conversation_of}
use openqqwaifu.Reminders.Due.{prepare}
use openqqwaifu.Turns.{
  Context, Work, Ids, Memories, head_of, belongs, earlier, is_ready, start_turn, work_on, next_work,
  is_queued,
}

-- The event is of the conversation, is not done, and no other one that is not done comes before it.
pub record IsHead (cid : String) (es : List Event) (e : Event) : Type 0 where
  pub present : Mem e es
  pub own : belongs cid e ≡ true
  pub first : All (λ r. e.seq ≤ r.seq) (select (belongs cid) es)

head_of-none :
    (cid : String) (es : List Event) → head_of cid es ≡ none → select (belongs cid) es ≡ []
unfolding head_of
head_of-none cid [] h = refl
head_of-none cid (x ∷ xs) h = elim (Bool-cases (belongs cid x)) [
  | inl b ↦ absurd (cc (rw (b, head_of) at h))
  | inr b ↦ rw b (head_of-none cid xs (rw (b, head_of) at h))
]

-- Of the new event and those after it.
first_of :
    (cid : String) (e x : Event) (xs : List Event)
    → belongs cid x ≡ true
    → e.seq ≤ x.seq
    → All (λ r. e.seq ≤ r.seq) (select (belongs cid) xs)
    → All (λ r. e.seq ≤ r.seq) (select (belongs cid) (x ∷ xs))
first_of cid e x xs b le h = rw b (le, h)

-- The head is the new event, or that of the events after it.
earlier-IsHead :
    (cid : String) (x : Event) (xs : List Event) (rest : Option Event)
    → belongs cid x ≡ true
    → (rest ≡ none → select (belongs cid) xs ≡ [])
    → ((r : Event) → rest ≡ some r → IsHead cid xs r)
    → IsHead cid (x ∷ xs) (earlier x rest)
earlier-IsHead cid x xs none b last later = record {
  present = mem-cons_self;
  own = b;
  first =
      first_of cid x x xs b (omega arith) (subst (All (λ r. x.seq ≤ r.seq)) (sym (last refl)) tt);
}
earlier-IsHead cid x xs (some r) b last later =
    let h : IsHead cid xs r = later r refl in
    elim (Bool-cases (ltb r.seq x.seq)) [
      | inl before ↦ rw before (record {
        present = mem-cons_of_mem x h.present;
        own = h.own;
        first = first_of cid r x xs b (omega (arith, ltb→lt r.seq x.seq before)) h.first;
      })
      | inr after ↦ rw after (record {
        present = mem-cons_self;
        own = b;
        first = first_of cid x x xs b (omega arith) (
            All-imp (λ q. r.seq ≤ q.seq) (λ q. x.seq ≤ q.seq)
              (λ q le. omega (arith, le, ltb→ge r.seq x.seq after)) (select (belongs cid) xs)
              h.first);
      })
    ]

pub head_of-IsHead :
    (cid : String) (es : List Event) {e : Event} → head_of cid es ≡ some e → IsHead cid es e
unfolding head_of
head_of-IsHead cid [] h = absurd (cc h)
head_of-IsHead cid (x ∷ xs) {e} h = elim (Bool-cases (belongs cid x)) [
  | inl b ↦ subst (IsHead cid (x ∷ xs)) (some_inj.0 (rw (b, head_of) at h)) (
      earlier-IsHead cid x xs (head_of cid xs) b (head_of-none cid xs)
        (λ r k. head_of-IsHead cid xs k))
  | inr b ↦
      let k : IsHead cid xs e = head_of-IsHead cid xs (rw (b, head_of) at h) in
      record { present = mem-cons_of_mem x k.present; own = k.own; first = rw b k.first }
]

-- The work, if it is a turn, is on this event.
abbrev IsOn : Event → Option Work → Type 0
IsOn e (some (Work.turn context inbound o)) = context.event_id ≡ e.event_id
IsOn e _ = Unit

start_turn-IsOn :
    (x : Option Turn) (db : Db) (c : Conversation) (e : Event) (inbound : Inbound)
    (config turn_id : String) (wall : ℕ)
    → IsOn e (start_turn x db c e inbound config turn_id wall).1
unfolding start_turn
start_turn-IsOn none db c e inbound config turn_id wall = refl
start_turn-IsOn (some t) db c e inbound config turn_id wall =
    elim (Bool-cases (is_queued e.state)) [ inl q ↦ rw (q, IsOn) refl | inr q ↦ rw (q, IsOn) refl ]

not-false : (b : Bool) → not b ≡ false → b ≡ true
not-false true h = refl
not-false false h = absurd (cc h)

due-IsOn :
    (e : Event) (x : Option Outbox)
    → IsOn e (some (elim x [ none ↦ Work.applied | some o ↦ Work.due o ]))
due-IsOn e none = tt
due-IsOn e (some o) = tt

module _ (os : Platform) (memories : Memories) where
  work_on-IsOn :
      (k : Kind) (db : Db) (c : Conversation) (e : Event) (config : String)
      (enabled : String → Bool) (now wall : ℕ) (ids : Ids)
      → Ensures
          (λ (r : Db × Option Work). IsOn e r.1)
          (work_on os memories k db c e config enabled now wall ids)
  unfolding work_on
  work_on-IsOn Kind.reminder_due db c e config enabled now wall ids =
      Ensures-bind (λ (r : Db × Option Work). IsOn e r.1)
        (prepare os db e enabled now config ids.turn_id ids.outbox_id) _ λ r _. due-IsOn e r.1
  work_on-IsOn Kind.followup_due db c e config enabled now wall ids = tt
  work_on-IsOn Kind.erased db c e config enabled now wall ids = tt
  work_on-IsOn (Kind.memory _) db c e config enabled now wall ids = tt
  work_on-IsOn (Kind.binding _) db c e config enabled now wall ids = tt
  work_on-IsOn (Kind.message inbound) db c e config enabled now wall ids =
      start_turn-IsOn e.turn db c e inbound config ids.turn_id wall

  -- The turn, if there is one, is on the head of the queue, which waits for it.
  abbrev IsOnHead : String → Db → Option Work → Type 0
  IsOnHead cid db (some (Work.turn context inbound o)) =
      (e : Event) × IsHead cid db.inbox e
      × (is_ready e.state ≡ true)
      × (context.event_id ≡ e.event_id)
  IsOnHead cid db _ = Unit

  on_head :
      (cid : String) (db : Db) (e : Event) (w : Option Work)
      → IsHead cid db.inbox e
      → is_ready e.state ≡ true
      → IsOn e w
      → IsOnHead cid db w
  on_head cid db e none h k q = tt
  on_head cid db e (some Work.applied) h k q = tt
  on_head cid db e (some (Work.due o)) h k q = tt
  on_head cid db e (some (Work.turn context inbound o)) h k q = (e, h, k, q)

  next_work-IsOnHead :
      (db : Db) (cid config : String) (enabled : String → Bool) (now wall : ℕ) (ids : Ids)
      → Ensures
          (λ (r : Db × Option Work). IsOnHead cid db r.1)
          (next_work os memories db cid config enabled now wall ids)
  unfolding next_work
  next_work-IsOnHead db cid config enabled now wall ids =
      let Q = λ (r : Db × Option Work). IsOnHead cid db r.1 in
      Ensures-option Q (conversation_of db cid) _ _ (λ _. tt)
        λ c _.
          Ensures-if Q (not c.active) _ _ (λ _. tt)
            λ _.
              Ensures-option Q (head_of cid db.inbox) _ _ (λ _. tt)
                λ e found.
                  Ensures-if Q (not (is_ready e.state)) _ _ (λ _. tt)
                    λ ready.
                      Ensures-imp (λ (r : Db × Option Work). IsOn e r.1) Q
                        (λ r q.
                          on_head cid db e r.1 (head_of-IsHead cid db.inbox found)
                            (not-false (is_ready e.state) ready) q)
                        (work_on os memories e.kind db c e config enabled now wall ids)
                        (work_on-IsOn e.kind db c e config enabled now wall ids)

  -- A turn that `next_work` hands to the engine is on an event of the conversation's inbox that
  -- waits for it; no event of the conversation that is not done has a smaller sequence number.
  pub next_work_in_order :
      (db db' : Db) (cid config : String) (enabled : String → Bool) (now wall : ℕ) (ids : Ids)
      (context : Context) (inbound : Inbound) (o : Option Outbox)
      → next_work os memories db cid config enabled now wall ids
        ≡ ok (db', some (Work.turn context inbound o))
      → (e : Event) × IsHead cid db.inbox e
        × (is_ready e.state ≡ true)
        × (context.event_id ≡ e.event_id)
  next_work_in_order db db' cid config enabled now wall ids context inbound o e =
      Ensures-ok (λ (r : Db × Option Work). IsOnHead cid db r.1) _
        (next_work-IsOnHead db cid config enabled now wall ids) e
