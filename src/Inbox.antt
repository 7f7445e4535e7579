-- ===== src/Inbox.antt =====
-- runtime_v2/store.py: room and order in the inbox (`_check_capacity`, `_take_seq`).
pub mod Binding
pub mod BindingOnce
use openqqwaifu.Prelude.{ℕ, ◌+◌, String, str_eq, ltb, update_where}
use openqqwaifu.Result.{Result, ok, busy, unknown_conversation, require, from_option, ◌>>=◌}
use openqqwaifu.Tables.{Conversation, Db, conversation_of, pending_count}

unfoldable pub check_capacity : ℕ → Db → Result (Unit {0})
check_capacity max_pending db = require (ltb (pending_count db) max_pending) busy

abbrev pub bump_seq : Conversation → Conversation
bump_seq c = record c { next_seq = c.next_seq + 1 }

-- The sequence number that the next event of the conversation takes.
unfoldable pub take_seq : Db → String → Result (Db × ℕ)
take_seq db cid = do
  c ← from_option unknown_conversation (conversation_of db cid)
  ok (
    record db {
      conversations = update_where (λ r. str_eq r.conversation_id cid) bump_seq db.conversations;
    },
    c.next_seq,
  )
