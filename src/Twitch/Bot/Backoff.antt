-- ===== src/Twitch/Bot/Backoff.antt =====
-- internal/twitch/bot.go: the loop that connects again. The context is asked at the start of a round,
-- behind its connection and while it waits: `done n` is the answer to the question number n. The rounds
-- are the connections, in the order in which they are made. A connection that the other side leaves open and
-- silent is read until the context is cancelled: the question behind it is asked no sooner.
pub mod Rounds
pub mod Returns
pub mod Waits
use media_share.Prelude.{
  ℕ, zero, suc, ◌+◌, ◌*◌, ◌^◌, ◌≤◌, ◌<◌, ◌≡◌, ◌≢◌, ◌⊎◌, refl, length, get_elem?, Bool, true, false,
  Option, some, none, List, [], ◌∷◌, ltb, if◌then◌else◌, arith, Bool-cases, inl, inr,
}
use media_share.Twitch.Bot.Session.{Creds, Connection, Ended, panicked, hanging, Chat, session}
use media_share.Twitch.Bot.Session.Laws.{session-orders}
use media_share.Twitch.Bot.Session.Returns.{session-returns}

-- `read_before` is the number of messages that are read before the context is cancelled, if that happens in
-- this round.
pub record Round : Type 0 where
  pub creds : Option Creds
  pub connection : Connection
  pub read_before : ℕ

-- `connecting` has used up the rounds; `stuck` is in a session that does not return.
pub data End : Type 0 where
  connecting cancelled crashed stuck : End

-- The waits in seconds.
pub record Report : Type 0 where
  pub waits : List ℕ
  pub end : End
  pub chat : Chat

abbrev pub stop : End → Chat → Report
stop end chat = record { waits = []; end = end; chat = chat }

abbrev pub waited : ℕ → Report → Report
waited backoff r = record r { waits = backoff ∷ r.waits }

pub next_backoff : ℕ → ℕ
next_backoff backoff = if ltb backoff 30 then backoff * 2 else backoff

-- What follows a connection: `again` starts the next round with a backoff.
reconnect : Bool → Bool → ℕ → (ℕ → Report) → Ended → Chat → Report
unfolding next_backoff
reconnect over over_in_wait backoff again panicked chat = stop End.crashed chat
reconnect over over_in_wait backoff again hanging chat = stop End.stuck chat
reconnect over over_in_wait backoff again e chat =
    if over
    then again 1
    else if over_in_wait
    then waited backoff (stop End.cancelled chat)
    else waited backoff (again (next_backoff backoff))

-- The session of a round; the question behind it tells whether the context was cancelled on the way.
pub met : Bool → Round → Chat → Ended × Chat
met over r chat = session (if over then some r.read_before else none) r.creds r.connection chat

pub rounds : (ℕ → Bool) → ℕ → ℕ → List Round → Chat → Report
unfolding reconnect met
rounds done i backoff [] chat = stop End.connecting chat
rounds done i backoff (r ∷ rs) chat =
    let s = met (done (3 * i + 1)) r chat in
    let go =
      reconnect (done (3 * i + 1)) (done (3 * i + 2)) backoff (λ b. rounds done (i + 1) b rs s.1)
        s.0 s.1 in
    if done (3 * i) then stop End.cancelled chat else go

unfoldable pub run : (ℕ → Bool) → List Round → Chat → Report
unfolding rounds
run done rs chat = rounds done 0 1 rs chat

-- A context that is cancelled stays so.
abbrev pub IsLasting : (ℕ → Bool) → Type 0
IsLasting done = (i j : ℕ) → i ≤ j → done i ≡ true → done j ≡ true
