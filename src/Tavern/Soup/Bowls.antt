-- ===== src/Tavern/Soup/Bowls.antt =====
-- What `_bowl`, `_serve` and the end of `_judge` do to the bowls, case by case.
use openqqwaifu.Prelude.{
  ℕ, ◌-◌, ◌&&◌, ◌≡◌, ◌⊎◌, ◌==◌, inl, inr, refl, String, true, none, some, eq_iff, ltb, Bool-cases,
  Option-cases, List, arith,
}
use openqqwaifu.Tavern.Soup.{
  Riddle, Soup, Bowl, World, Chat, Settings, serve, draw, pour, bowl_at, chat_name, same_chat,
  set_bowl,
}
use openqqwaifu.Tavern.Soup.Play.{Verdict, judged, conclude, conclude_late}

pub same_chat_refl : (chat : Chat) → same_chat chat chat ≡ true
same_chat_refl chat =
    rw
      (
        (eq_iff chat.launcher_type chat.launcher_type).1 refl,
        (eq_iff chat.launcher_id chat.launcher_id).1 refl,
      )
      refl

pub serve-drawn :
    (world : World) (chat : Chat) (soup : Soup) (drawn : Riddle × List String)
    → draw world.pick (soup.played (chat_name chat)) world.riddles ≡ some drawn
    → serve world chat soup ≡ (pour world chat drawn.0 drawn.1 soup, some drawn.0)
unfolding serve
serve-drawn world chat soup drawn f = rw (f, serve) refl

pub serve_cases :
    (world : World) (chat : Chat) (soup : Soup)
    → (serve world chat soup ≡ (soup, none))
      ⊎ ((drawn : Riddle × List String) × (serve world chat soup
            ≡ (pour world chat drawn.0 drawn.1 soup, some drawn.0)))
unfolding serve
serve_cases world chat soup =
    elim (Option-cases (draw world.pick (soup.played (chat_name chat)) world.riddles)) [
      | inl f ↦ inl (rw (serve, f) refl)
      | inr (drawn, f) ↦ inr (drawn, serve-drawn world chat soup drawn f)
    ]

-- No bowl, a bowl that is put away, or a bowl that stays.
pub bowl_at_cases :
    (settings : Settings) (now : ℕ) (chat : Chat) (soup : Soup)
    → (bowl_at settings now chat soup ≡ (soup, none))
      ⊎ (bowl_at settings now chat soup ≡ (set_bowl chat none soup, none))
      ⊎ ((bowl : Bowl) × (soup.bowls chat ≡ some bowl)
          × (bowl_at settings now chat soup ≡ (soup, some bowl)))
unfolding bowl_at
bowl_at_cases settings now chat soup = elim (Option-cases (soup.bowls chat)) [
  | inl f ↦ inl (rw (bowl_at, f) refl)
  | inr (bowl, f) ↦
      elim (Bool-cases
        (ltb 0 settings.idle_timeout && ltb settings.idle_timeout (now - bowl.last_activity_at))) [
          | inl idle ↦ inr (inl (rw (bowl_at, f, idle) refl))
          | inr busy ↦ inr (inr (bowl, f, rw (bowl_at, f, busy) refl))
        ]
]

-- The bowl that was judged is the chat's, or the chat's bowls are left alone.
pub judged_cases :
    (chat : Chat) (number : ℕ) (said : Verdict) (soup : Soup)
    → (judged chat number said soup ≡ (soup, conclude_late said))
      ⊎ ((bowl : Bowl) × (soup.bowls chat ≡ some bowl)
          × (bowl.number ≡ number)
          × (judged chat number said soup ≡ conclude chat bowl said soup))
unfolding judged
judged_cases chat number said soup = elim (Option-cases (soup.bowls chat)) [
  | inl f ↦ inl (rw (judged, f) refl)
  | inr (bowl, f) ↦ elim (Bool-cases (bowl.number == number)) [
    | inl same ↦ inr (bowl, f, ground (arith, same), rw (judged, f, same) refl)
    | inr other ↦ inl (rw (judged, f, other) refl)
  ]
]
