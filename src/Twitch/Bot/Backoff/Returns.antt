-- ===== src/Twitch/Bot/Backoff/Returns.antt =====
-- The loop that connects again ends when its context is cancelled.
use media_share.Prelude.{
  ℕ, suc, ◌+◌, ◌*◌, ◌≤◌, ◌<◌, ◌≡◌, ◌≢◌, refl, length, get_elem?, Bool, true, some, none, List, [],
  ◌∷◌, arith, Bool-cases, inl, inr,
}
use media_share.Twitch.Bot.Session.{hanging, Chat, session}
use media_share.Twitch.Bot.Backoff.{Round, End, next_backoff, met, rounds, run, IsLasting}
use media_share.Twitch.Bot.Backoff.Rounds.{met-returns, rounds-cons}

-- A session that nobody ends is read until the context is cancelled, so the question behind it is answered
-- with yes: in the rounds from the number i on.
abbrev IsHeld : (ℕ → Bool) → ℕ → List Round → Type 0
IsHeld done i rs =
    (j : ℕ) (r : Round) (chat : Chat)
    → get_elem? rs j ≡ some r
    → (session none r.creds r.connection chat).0 ≡ hanging
    → done (3 * (i + j) + 1) ≡ true

module _ (done : ℕ → Bool) (lasts : IsLasting done) where
  -- A held round's session returns: the cancel closes the connection.
  held-returns :
      (i : ℕ) (r : Round) (rs : List Round) (chat : Chat)
      → IsHeld done i (r ∷ rs)
      → (met (done (3 * i + 1)) r chat).0 ≢ hanging
  held-returns i r rs chat held = elim (Bool-cases (done (3 * i + 1))) [
    | inl over ↦ rw over (met-returns r chat)
    | inr on ↦ λ hangs.
        let first : i + 0 ≡ i = omega arith in
        let over : done (3 * (i + 0) + 1) ≡ true =
          held 0 r chat refl (unfold met in rw on at hangs) in
        let now : done (3 * i + 1) ≡ true = rw first at over in ground arith
  ]

  IsHeld-rest :
      (i : ℕ) (r : Round) (rs : List Round) → IsHeld done i (r ∷ rs) → IsHeld done (i + 1) rs
  IsHeld-rest i r rs held j r' chat at hangs =
      let same : i + suc j ≡ i + 1 + j = omega arith in
      let over = held (suc j) r' chat at hangs in rw same at over

  rounds-returns :
      (k i backoff : ℕ) (rs : List Round) (chat : Chat)
      → IsHeld done i rs
      → done k ≡ true
      → 3 * i < k + 3
      → k + 3 ≤ 3 * (i + length rs)
      → (rounds done i backoff rs chat).end ≡ End.cancelled
  rounds-returns k i backoff [] chat held at low high = absurd (omega arith)
  rounds-returns k i backoff (r ∷ rs) chat held at low high =
      rw (rounds-cons done i backoff r rs chat (held-returns i r rs chat held))
        (elim (Bool-cases (done (3 * i))) [
          | inl over ↦ rw over
          | inr goes ↦
              let early : 3 * i < k = ground (arith, lasts k (3 * i)) in
              let later = λ (b : ℕ) (chat' : Chat).
                rounds-returns k (i + 1) b rs chat' (IsHeld-rest i r rs held) at (omega arith)
                  (omega arith) in
              elim (Bool-cases (done (3 * i + 1))) [
                | inl over ↦ rw (goes, over) (later 1 _)
                | inr on ↦ elim (Bool-cases (done (3 * i + 2))) [
                  | inl over ↦ rw (goes, on, over)
                  | inr waits ↦ rw (goes, on, waits) (later (next_backoff backoff) _)
                ]
              ]
        ])

  -- Once the context, which stays cancelled, is cancelled, at whichever of its questions, the loop ends
  -- within the round behind that, and it ends because of that: no session goes on for ever, and no panic
  -- ends it. A session whose connection is left open and silent is read until the cancel.
  pub run-returns :
      (k : ℕ) (rs : List Round) (chat : Chat)
      → ((j : ℕ) (r : Round) (chat : Chat)
          → get_elem? rs j ≡ some r
          → (session none r.creds r.connection chat).0 ≡ hanging
          → done (3 * j + 1) ≡ true)
      → done k ≡ true
      → k + 3 ≤ 3 * length rs
      → (run done rs chat).end ≡ End.cancelled
  unfolding run
  run-returns k rs chat held at enough =
      rounds-returns k 0 1 rs chat
        (λ j r chat h hangs. let same : 0 + j ≡ j = omega arith in rw same (held j r chat h hangs))
        at (omega arith) (omega arith)
