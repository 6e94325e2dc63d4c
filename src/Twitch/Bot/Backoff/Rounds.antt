-- ===== src/Twitch/Bot/Backoff/Rounds.antt =====
-- One round of the loop that connects again.
use media_share.Prelude.{
  ℕ, ◌+◌, ◌*◌, ◌≡◌, ◌≢◌, ◌⊎◌, refl, Bool, true, false, some, none, List, [], ◌∷◌, if◌then◌else◌,
  arith, Bool-cases, inl, inr,
}
use media_share.Twitch.Bot.Session.{Ended, panicked, hanging, Chat}
use media_share.Twitch.Bot.Session.Laws.{session-orders}
use media_share.Twitch.Bot.Session.Returns.{session-returns}
use media_share.Twitch.Bot.Backoff.{
  Round, End, Report, stop, waited, next_backoff, reconnect, met, rounds, IsLasting,
}

reconnect-runs :
    (over over_in_wait : Bool) (backoff : ℕ) (again : ℕ → Report) (e : Ended) (chat : Chat)
    → e ≢ panicked
    → e ≢ hanging
    → reconnect over over_in_wait backoff again e chat ≡ (
        if over
        then again 1
        else if over_in_wait
        then waited backoff (stop End.cancelled chat)
        else waited backoff (again (next_backoff backoff)))
unfolding reconnect
reconnect-runs over over_in_wait backoff again Ended.no_credentials chat runs returns = refl
reconnect-runs over over_in_wait backoff again Ended.dial_failed chat runs returns = refl
reconnect-runs over over_in_wait backoff again Ended.send_failed chat runs returns = refl
reconnect-runs over over_in_wait backoff again Ended.auth_failed chat runs returns = refl
reconnect-runs over over_in_wait backoff again Ended.read_failed chat runs returns = refl
reconnect-runs over over_in_wait backoff again Ended.panicked chat runs returns = absurd (runs refl)
reconnect-runs over over_in_wait backoff again Ended.hanging chat runs returns =
    absurd (returns refl)

met-runs : (over : Bool) (r : Round) (chat : Chat) → (met over r chat).0 ≢ panicked
unfolding met
met-runs true r chat = (session-orders (some r.read_before) r.creds r.connection chat).1
met-runs false r chat = (session-orders none r.creds r.connection chat).1

-- The session of a round in which the context is cancelled returns.
pub met-returns : (r : Round) (chat : Chat) → (met true r chat).0 ≢ hanging
unfolding met
met-returns r chat = session-returns r.read_before r.creds r.connection chat

pub hanging-cases : (e : Ended) → (e ≡ hanging) ⊎ (e ≢ hanging)
hanging-cases Ended.hanging = inl refl
hanging-cases Ended.no_credentials = inr (λ same. cc)
hanging-cases Ended.dial_failed = inr (λ same. cc)
hanging-cases Ended.send_failed = inr (λ same. cc)
hanging-cases Ended.auth_failed = inr (λ same. cc)
hanging-cases Ended.read_failed = inr (λ same. cc)
hanging-cases Ended.panicked = inr (λ same. cc)

-- A round, with a session that returns.
pub rounds-cons :
    (done : ℕ → Bool) (i backoff : ℕ) (r : Round) (rs : List Round) (chat : Chat)
    → (met (done (3 * i + 1)) r chat).0 ≢ hanging
    → rounds done i backoff (r ∷ rs) chat ≡ (
        let chat' = (met (done (3 * i + 1)) r chat).1 in
        if done (3 * i)
        then stop End.cancelled chat
        else if done (3 * i + 1)
        then rounds done (i + 1) 1 rs chat'
        else if done (3 * i + 2)
        then waited backoff (stop End.cancelled chat')
        else waited backoff (rounds done (i + 1) (next_backoff backoff) rs chat'))
unfolding rounds
rounds-cons done i backoff r rs chat returns =
    let s = met (done (3 * i + 1)) r chat in
    rw
      (reconnect-runs (done (3 * i + 1)) (done (3 * i + 2)) backoff
        (λ b. rounds done (i + 1) b rs s.1) s.0 s.1 (met-runs (done (3 * i + 1)) r chat) returns)
      refl

-- A round whose session does not return is the last one.
pub rounds-hanging :
    (done : ℕ → Bool) (i backoff : ℕ) (r : Round) (rs : List Round) (chat : Chat)
    → (met (done (3 * i + 1)) r chat).0 ≡ hanging
    → (rounds done i backoff (r ∷ rs) chat).waits ≡ []
unfolding rounds
rounds-hanging done i backoff r rs chat hangs = elim (Bool-cases (done (3 * i))) [
  | inl over ↦ rw over refl
  | inr goes ↦ rw (goes, hangs) (unfold reconnect in refl)
]

module _ (done : ℕ → Bool) (lasts : IsLasting done) where
  -- A loop whose context was cancelled waits no more.
  pub rounds-over :
      (i backoff : ℕ) (rs : List Round) (chat : Chat)
      → done (3 * i) ≡ true
      → (rounds done i backoff rs chat).waits ≡ []
  unfolding rounds
  rounds-over i backoff [] chat over = refl
  rounds-over i backoff (r ∷ rs) chat over = rw over

  pub ended_waits :
      (i : ℕ) (rs : List Round) (chat : Chat)
      → done (3 * i + 1) ≡ true
      → (rounds done (i + 1) 1 rs chat).waits ≡ []
  ended_waits i rs chat over =
      rounds-over (i + 1) 1 rs chat (lasts (3 * i + 1) (3 * (i + 1)) (omega arith) over)
