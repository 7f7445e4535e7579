-- ===== src/Contact/Decision/Window.antt =====
-- `attempts` of contact_policy.py as a view of the table: its length, its order, its elements.
use openqqwaifu.Prelude.{
  ℕ, String, ◌≡◌, refl, Bool, true, List, [], ◌∷◌, map, arith, select, length, count_where, All,
  IsSorted, sort-IsSorted, length-sort, All-sort, of_All-sort, ◌∙◌, inl, inr, Bool-cases,
}
use openqqwaifu.Tables.{ContactAttempt, Db}
use openqqwaifu.Contact.Decision.{recent, attempts}

length-map-select :
    (p : ContactAttempt → Bool) (xs : List ContactAttempt)
    → length (map (λ (a : ContactAttempt). a.started_at) (select p xs)) ≡ count_where p xs
length-map-select p [] = refl
length-map-select p (x ∷ xs) = ground (arith, length-map-select p xs)

module _ (P : ℕ → Type 0) (p : ContactAttempt → Bool) where
  All-map-select :
      (xs : List ContactAttempt)
      → All (λ (a : ContactAttempt). p a ≡ true → P a.started_at) xs
      → All P (map (λ (a : ContactAttempt). a.started_at) (select p xs))
  All-map-select [] h = tt
  All-map-select (x ∷ xs) h = elim (Bool-cases (p x)) [
    | inl e ↦ rw e (h.0 e, All-map-select xs h.1)
    | inr e ↦ rw e (All-map-select xs h.1)
  ]

  of_All-map-select :
      (xs : List ContactAttempt)
      → All P (map (λ (a : ContactAttempt). a.started_at) (select p xs))
      → All (λ (a : ContactAttempt). p a ≡ true → P a.started_at) xs
  of_All-map-select [] h = tt
  of_All-map-select (x ∷ xs) h = elim (Bool-cases (p x)) [
    | inl e ↦
        let k : P x.started_at × All P (map (λ (a : ContactAttempt). a.started_at) (select p xs)) =
          rw e at h in
        (λ _. k.0, of_All-map-select xs k.1)
    | inr e ↦ (λ t. absurd (cc (e, t)), of_All-map-select xs (rw e at h))
  ]

module _ (db : Db) (cid : String) (now : ℕ) where
  pub attempts-IsSorted : IsSorted (attempts db cid now)
  unfolding attempts
  attempts-IsSorted = sort-IsSorted _

  pub length-attempts :
      length (attempts db cid now) ≡ count_where (recent cid now) db.contact_attempts
  unfolding attempts
  length-attempts = length-sort _ ∙ length-map-select (recent cid now) db.contact_attempts

  pub All-attempts :
      (P : ℕ → Type 0)
      → All (λ (a : ContactAttempt). recent cid now a ≡ true → P a.started_at) db.contact_attempts
      → All P (attempts db cid now)
  unfolding attempts
  All-attempts P h = All-sort P _ (All-map-select P (recent cid now) db.contact_attempts h)

  pub of_All-attempts :
      (P : ℕ → Type 0)
      → All P (attempts db cid now)
      → All (λ (a : ContactAttempt). recent cid now a ≡ true → P a.started_at) db.contact_attempts
  unfolding attempts
  of_All-attempts P h = of_All-map-select P (recent cid now) db.contact_attempts (of_All-sort P _ h)
