-- ===== src/Lib.antt =====
-- The private-conversation runtime of openqqwaifu, a chat companion for QQ: how a received message
-- or a due reminder becomes a message that is sent, and when the companion may write at all.
--
-- src/waifu_standalone/runtime_v2/store.py keeps one database per account. Each conversation has an
-- inbox in the order of its sequence numbers. `next_work` takes the first event that is not done and
-- starts a turn; the engine generates a reply; `save_proposal` puts it into the outbox;
-- `begin_dispatch` stands before the external send and `finish_delivery` after it. A send whose
-- result is unknown waits for a person (`resolve_delivery`), also after a crash (`recover`).
-- reminders.py turns due tasks into inbox events (`tick`) and stops those that are cancelled,
-- expired or not allowed now; contact_policy.py decides that from quiet hours and from the attempts
-- of the last 24 hours, and changes its rules on request. memories.py keeps what was said with its
-- revisions, and followups.py asks later how an episode went, under the same rules and its own.
--
-- Beside the runtime stand parts that keep a state of their own: the filter against handling a message
-- twice and the session lock of the gateways, the gate that decides which message of a group is
-- answered, the accounts of the web console, and the riddles of a chat.
--
-- The files, with the code that they model (paths below src/waifu_standalone/):
--   Tables              the rows: schemas of runtime_v2/store.py, reminders.py, contact_policy.py
--   Platform            what comes from Python and the system: zones, digits, white space, str
--   Result              the exceptions as values, with the rule for what a chain ensures
--   Contact             runtime_v2/contact_policy.py: Quiet has minute, in_quiet, next_open;
--                       Decision has policy, attempts, decision, for_task, check_requested_time;
--                       Request has ensure and apply_request
--   Inbox               runtime_v2/store.py: _check_capacity, _take_seq; Binding has enqueue_binding,
--                       with require_active and duplicate_source of privacy.py
--   Reminders           runtime_v2/reminders.py: invalidate, eligibility, contact_blocked; Due has
--                       prepare, before_dispatch, delivery_result, reconcile_contact; Tick has tick
--   Turns               runtime_v2/store.py: next_work, save_proposal; privacy.py: require_current
--   Delivery            runtime_v2/store.py: begin_dispatch, finish_delivery, _commit_delivery;
--                       Review has resolve_delivery; Recovery has recover and end_generation; the
--                       other children are theorems, Trace those on sequences of nine operations
--   Dedup               gateways/inbound_dedup.py: claim, mark_delivered, release, _key_for; Runs has
--                       sequences of calls
--   Lock                infra/session_lock.py: acquire, release in two halves; the tasks that hold the
--                       lock are kept beside it
--   Memories            runtime_v2/memories.py: validate_change; Apply has source_text, apply_change
--   Followups           runtime_v2/followups.py: invalidate, intrinsic; Pace has decision and
--                       task_decision; Moves has defer, reconcile, before_dispatch, delivery_result;
--                       Times has reset_followups and sync_record of runtime_v2/episode_times.py
--   ReplyFlow           reply_flow/reply_gate.py: Gate has should_reply, the follow-up windows and the
--                       pending search; Phrases has the looks_like tests
--   Web                 web/auth.py: Auth has the accounts, the sessions and users.json
--   Tavern              tavern/soup.py: Soup has _serve and _hint, Play ahandle and _judge;
--                       tavern/dice.py: Dice has parse_roll and the texts of a roll
--   Json                the values of JSON that the checks of a payload tell apart
--   Prelude             lists as tables, tests on numbers, sorting
--   Sample, Examples    a small database, and the theorems at concrete inputs
--
-- The modelling. A transaction is a function from a database to a result; one that raises leaves
-- the database as it was. SQL tables are lists of rows, updates act on every row that passes the
-- test, and a query for one row takes the first. Rows that are unique for an event (turn, outbox
-- row, occurrence, messages) stand in the row of that event, and the delivery attempts in their
-- outbox row. JSON columns hold the decoded value. The text columns that no modelled operation reads
-- (titles, notes, payload details) are left out. A time is a number of microseconds; an operation
-- reads each clock once: `now` is self.clock(), `wall` is time.time(). Fresh identifiers are
-- arguments. Loops run over lists or over the fixed 26 hours of next_open, so that no fuel is needed.
--
-- Memories, Followups, ReplyFlow, Web and Tavern have states of their own: a list of rows where the
-- order or the number of entries is read, a function of the key where only single entries are. Regular
-- expressions, the stripping of texts, PBKDF2, base64 and random numbers are parameters. A Python
-- method that waits for the model is two operations, before and after the wait.
--
-- Not modelled: in the files of the delivery, follow-up candidates, their drafts, dialogues on the times
-- of episodes and the erasure journal, whose tables are taken to be empty there; memory changes in a
-- reply, which Turns takes as the interface `Memories`. In followups.py: apply_request, discover, tick
-- and prepare. In episode_times.py: the proposed time with its parser, and requests. In memories.py:
-- recall_snapshot and the pages of the console. In privacy.py: apply_erasure, so that runs do not erase.
-- In reply_gate.py: the rate limit of group replies and the reply to a repetition. Reading the files of
-- riddles, and the JSON of the judge. SQLite, its locks, the network, the language model and the rest of
-- the program (other web handlers, skills, the tavern itself, the older runtime) are outside
-- the model.
pub mod Contact
pub mod Dedup
pub mod Delivery
pub mod Examples
pub mod Followups
pub mod Inbox
pub mod Json
pub mod Lock
pub mod Memories
pub mod Platform
pub mod Prelude
pub mod Reminders
pub mod ReplyFlow
pub mod Result
pub mod Sample
pub mod Tables
pub mod Tavern
pub mod Turns
pub mod Web
