-- ===== src/ReplyFlow/Gate/Mention.antt =====
-- What a mention of the bot opens.
use openqqwaifu.Prelude.{
  ◌+◌, ◌≤◌, ◌≡◌, ◌≢◌, refl, ap, ◌∙◌, true, false, some, List, [], ◌∷◌, str_eq, eq_iff, arith, not,
  ◌==◌, inl, inr, Bool-cases, find, le→leb,
}
use openqqwaifu.ReplyFlow.Phrases.{Words}
use openqqwaifu.ReplyFlow.Gate.{
  Window, Gate, Clock, Config, Incoming, is_window, put, is_follow_up_window_active, is_ignored,
  persist_follow_up_window, refresh_follow_up_window, should_reply,
}

find-put :
    (w : Window) (ws : List Window)
    → find (is_window w.character_id w.launcher_id) (put w ws) ≡ some w
find-put w [] =
    rw ((eq_iff w.character_id w.character_id).1 refl, (eq_iff w.launcher_id w.launcher_id).1 refl)
      refl
find-put w (x ∷ xs) = elim (Bool-cases (is_window w.character_id w.launcher_id x)) [
  | inl t ↦
      rw
        (
          t,
          (eq_iff w.character_id w.character_id).1 refl,
          (eq_iff w.launcher_id w.launcher_id).1 refl,
        )
        refl
  | inr t ↦ rw (t, t) (find-put w xs)
]

-- A group where the bot answers a mention, and for a while what follows it.
pub record IsAnswered (words : Words) (config : Config) (event : Incoming) : Type 0 where
  pub grouped : event.launcher_type ≡ "group"
  pub heard : is_ignored words config event ≡ false

-- The settings: the bot knows its account, mentions are required, the listener is off, and the window
-- has a length.
pub record KeepsWindows (words : Words) (config : Config) : Type 0 where
  pub named : words.strip config.bot_account_id ≢ ""
  pub strict : config.requires_mention ≡ true
  pub deaf : config.listen_enabled ≡ false
  pub lasting : config.window_span ≢ 0

refresh-active :
    (clock later : Clock) (config : Config) (event : Incoming) (gate : Gate)
    → event.launcher_type ≡ "group"
    → config.window_span ≢ 0
    → later.monotonic ≤ clock.monotonic + config.window_span
    → is_follow_up_window_active later config.character_id event.launcher_id
        (refresh_follow_up_window clock config event gate)
      ≡ true
unfolding is_follow_up_window_active refresh_follow_up_window persist_follow_up_window
refresh-active clock later config event gate grouped lasting soon =
    let group_test : str_eq event.launcher_type "group" ≡ true =
      (eq_iff event.launcher_type "group").1 grouped in
    let span_test : (config.window_span == 0) ≡ false = ground (arith, lasting) in
    rw
      (
        refresh_follow_up_window,
        group_test,
        span_test,
        persist_follow_up_window,
        find-put
            (record {
              character_id = config.character_id;
              launcher_id = event.launcher_id;
              until = clock.monotonic + config.window_span;
            })
            gate.windows,
        le→leb later.monotonic (clock.monotonic + config.window_span) soon,
      )
      refl

name_test :
    (words : Words) (config : Config)
    → KeepsWindows words config
    → str_eq (words.strip config.bot_account_id) "" ≡ false
name_test words config opens =
    ground (arith, opens.named, eq_iff (words.strip config.bot_account_id) "")

should_reply-mention :
    (words : Words) (clock : Clock) (config : Config) (event : Incoming) (gate : Gate)
    → KeepsWindows words config
    → IsAnswered words config event
    → event.mentions_bot ≡ true
    → should_reply words clock config event gate
      ≡ (refresh_follow_up_window clock config event gate, true)
unfolding should_reply
should_reply-mention words clock config event gate opens answered called =
    let group_test : str_eq event.launcher_type "group" ≡ true =
      (eq_iff event.launcher_type "group").1 answered.grouped in
    let result = refresh_follow_up_window clock config event gate in
    ground (arith, answered.heard, group_test, name_test words config opens, called)

should_reply-window :
    (words : Words) (clock : Clock) (config : Config) (event : Incoming) (gate : Gate)
    → KeepsWindows words config
    → IsAnswered words config event
    → event.mentions_bot ≡ false
    → is_follow_up_window_active clock config.character_id event.launcher_id gate ≡ true
    → should_reply words clock config event gate ≡ (gate, not event.superseded)
unfolding should_reply
should_reply-window words clock config event gate opens answered plain live =
    let group_test : str_eq event.launcher_type "group" ≡ true =
      (eq_iff event.launcher_type "group").1 answered.grouped in
    ground (
      arith,
      answered.heard,
      group_test,
      name_test words config opens,
      plain,
      live,
      opens.strict,
      opens.deaf,
    )

-- Where the bot knows its account, mentions are required, the listener is off and the window has a
-- length: a mention in a group by someone who is not ignored is answered, and so is each later message
-- there without a mention, by anyone who is not ignored, until the window is over, unless a newer one
-- has superseded it.
pub mention_opens_window :
    (words : Words) (clock later : Clock) (config : Config) (mention event : Incoming) (gate : Gate)
    → KeepsWindows words config
    → IsAnswered words config mention
    → IsAnswered words config event
    → mention.mentions_bot ≡ true
    → event.mentions_bot ≡ false
    → event.launcher_id ≡ mention.launcher_id
    → later.monotonic ≤ clock.monotonic + config.window_span
    → ((should_reply words clock config mention gate).1 ≡ true)
      × ((should_reply words later config event (should_reply words clock config mention gate).0).1
          ≡ not event.superseded)
mention_opens_window words clock later config mention event gate opens first second called plain
      same soon =
    let run = should_reply-mention words clock config mention gate opens first called in
    let gate' = refresh_follow_up_window clock config mention gate in
    let live : is_follow_up_window_active later config.character_id event.launcher_id gate' ≡ true =
      rw same (refresh-active clock later config mention gate first.grouped opens.lasting soon) in
    (
      ap (λ x. x.1) run,
      ap (λ x. (should_reply words later config event x.0).1) run
          ∙ ap (λ x. x.1)
              (should_reply-window words later config event gate' opens second plain live),
    )
