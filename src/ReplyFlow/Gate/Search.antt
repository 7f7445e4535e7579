-- ===== src/ReplyFlow/Gate/Search.antt =====
-- How long a search waits for a yes.
use openqqwaifu.Prelude.{
  ℕ, ◌+◌, ◌≡◌, ◌≢◌, refl, String, true, false, some, str_eq, eq_iff, arith, leb, ltb, if◌then◌else◌,
  ◌==◌, inl, inr, Bool-cases,
}
use openqqwaifu.ReplyFlow.Phrases.{Words, search_confirmation}
use openqqwaifu.ReplyFlow.Gate.{
  Session, search_ttl, store_pending_search, pending_search_payload, pending_search_query,
}

-- A text with single spaces has nothing to strip.
pub record IsTidy (words : Words) : Type 0 where
  pub strip-squash : (text : String) → words.strip (words.squash text) ≡ words.squash text

-- A search that waits is found as long as its half hour lasts.
payload-stored :
    (words : Words)
    → IsTidy words
    → (now later : ℕ) (query : String) (session : Session) → words.squash query ≢ ""
    → pending_search_payload words later (store_pending_search words now query session)
      ≡ some (record { query = words.squash query; expires_at = now + search_ttl })
unfolding pending_search_payload store_pending_search
payload-stored words tidy now later query session asked =
    let test : str_eq (words.squash query) "" ≡ false =
      ground (arith, asked, eq_iff (words.squash query) "") in
    rw (pending_search_payload, store_pending_search, test, tidy.strip-squash query, test) refl

-- Where a text with single spaces has nothing to strip, a search that was stored with a query that is
-- not blank is answered by a message that confirms it with its query up to the end of its half hour,
-- and with nothing after it.
pub search_waits :
    (words : Words)
    → IsTidy words
    → (now later : ℕ) (query message : String) (session : Session) → words.squash query ≢ ""
    → search_confirmation words message ≡ true
    → (pending_search_query words later message (store_pending_search words now query session)).1
      ≡ (if leb later (now + search_ttl) then words.squash query else "")
unfolding pending_search_query
search_waits words tidy now later query message session asked agreed =
    let stored = payload-stored words tidy now later query session asked in
    elim (Bool-cases (ltb (now + search_ttl) later)) [
      | inl over ↦
          let late : leb later (now + search_ttl) ≡ false = ground (arith, over) in
          let known : ((now + search_ttl) == 0) ≡ false = ground arith in
          rw (pending_search_query, stored, known, over, late) refl
      | inr waits ↦
          let early : leb later (now + search_ttl) ≡ true = ground (arith, waits) in
          rw (pending_search_query, stored, waits, early, agreed, tidy.strip-squash query)
            (ground arith)
    ]
