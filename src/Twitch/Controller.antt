-- ===== src/Twitch/Controller.antt =====
-- internal/twitch/controller.go: connecting, refreshing and disconnecting the bot's account. The functions
-- take what Twitch answers and what the disk does as arguments. A bot is known by a number; `live` has
-- the bots whose context is not cancelled.
pub mod Moves
pub mod Laws
pub mod Credentials
mod Tests
use media_share.Prelude.{
  ℕ, suc, ◌+◌, Bool, true, false, not, ◌&&◌, Option, none, some, List, [], ◌∷◌, ◌++◌, Text, codes,
  Assoc, lookup, insert, delete, is_empty, not_empty, is_some, ltb, ◌==◌, if◌then◌else◌,
}
use media_share.Prelude.Int.{ℤ}
use media_share.Random.{Rng, rand_token}
use media_share.Strings.{to_lower, trim_prefix, trim_space}
use media_share.Oauth.{Answer, right, wrong, Http, Client}
use media_share.Twitch.Oauth.{Token, Decoder, expired, exchange_code, refresh}
use media_share.Twitch.Files.{Codec, Directory, Found, found, Progress, get, save, clear}
use media_share.Twitch.Bot.Session.{Creds}

pub record Status : Type 0 where
  pub available : Bool
  pub connected : Bool
  pub bot_login : Text
  pub channel : Text
  pub error : Text

pub record StateEntry : Type 0 where
  pub channel : Text
  pub expires : ℕ

-- The OAuth client is that of the controller's id, secret and redirect URI. `root` says that `Start`
-- has set the root context, `broadcasting` that there is a broadcaster.
pub record Controller : Type 0 where
  pub client : Client
  pub available : Bool
  pub broadcasting : Bool
  pub root : Bool
  pub token : Option Token
  pub bot : Option ℕ
  pub last_err : Text
  pub states : Assoc StateEntry

pub record System : Type 0 where
  pub controller : Controller
  pub directory : Directory
  pub next_bot : ℕ
  pub live : List ℕ
  pub sent : List Status

unfoldable pub new_controller : Client → Bool → Controller
new_controller c broadcasting = record {
  client = c;
  available = not_empty c.client_id && not_empty c.client_secret;
  broadcasting = broadcasting;
  root = false;
  token = none;
  bot = none;
  last_err = [];
  states = [];
}

unfoldable pub status : Controller → Status
status c = record {
  available = c.available;
  connected = elim c.token [ none ↦ false | some t ↦ is_some c.bot ];
  bot_login = elim c.token [ none ↦ [] | some t ↦ t.bot_login ];
  channel = elim c.token [ none ↦ [] | some t ↦ t.channel ];
  error = c.last_err;
}

unfoldable pub broadcast_status : System → System
unfolding status
broadcast_status s =
    if s.controller.broadcasting then record s { sent = s.sent ++ status s.controller ∷ [] } else s

unfoldable pub set_error : Text → System → System
unfolding broadcast_status
set_error msg s =
    broadcast_status (record s { controller = record s.controller { last_err = msg } })

-- `cancel()`
cancelled : Option ℕ → List ℕ → List ℕ
cancelled none live = live
cancelled (some n) [] = []
cancelled (some n) (m ∷ live) =
    let rest = cancelled (some n) live in if m == n then rest else m ∷ rest

unfoldable pub start_bot : System → System
unfolding cancelled
start_bot s =
    if s.controller.root
    then record s {
      controller = record s.controller { bot = some s.next_bot };
      next_bot = s.next_bot + 1;
      live = s.next_bot ∷ cancelled s.controller.bot s.live;
    }
    else s

-- `c.token = tok; c.lastErr = ""`, under one lock.
unfoldable pub adopt : Token → System → System
adopt t s = record s { controller = record s.controller { token = some t; last_err = [] } }

unfoldable pub save_token : Codec → Progress → Token → System → Bool × System
save_token codec p t s =
    let (done, dir) = save codec p t s.directory in (done, record s { directory = dir })

-- What `Start` begins with: the stored token, or the legacy one.
start_token : Found → Option Token → Option Token
start_token (found t) legacy = some t
start_token _ legacy = legacy

started : Option Token → System → System
unfolding start_bot broadcast_status
started none s = broadcast_status s
started (some t) s =
    broadcast_status (start_bot (record s { controller = record s.controller { token = some t } }))

unfoldable pub start : Codec → Bool → Option Token → System → System
unfolding start_token started
start codec readable legacy s =
    started (start_token (get codec readable s.directory) legacy)
      (record s { controller = record s.controller { root = true } })

-- The channel to join, the bot's own by default.
named : Text → Token → Token
named channel t =
    let name = to_lower (trim_prefix (trim_space channel) (codes "#")) in
    record t { channel = if is_empty name then t.bot_login else name }

kept : Text → Token → Bool × System → Option Text × System
unfolding adopt start_bot broadcast_status set_error
kept disk_error t (true, s) = (none, broadcast_status (start_bot (adopt t s)))
kept disk_error t (false, s) =
    (some disk_error, set_error (codes "could not save token: " ++ disk_error) s)

exchanged : Codec → Progress → Text → Text → Answer Token → System → Option Text × System
unfolding kept named set_error save_token
exchanged codec p disk_error channel (wrong e) s = (some e, set_error e s)
exchanged codec p disk_error channel (right t) s =
    kept disk_error (named channel t) (save_token codec p (named channel t) s)

-- The error, if there is one; `disk_error` is the text of an error of the `Save`.
unfoldable pub connect :
    Http → Decoder → Codec → ℤ → Progress → Text → Text → Text → System → Option Text × System
unfolding exchanged
connect http decoder codec now p disk_error code channel s =
    exchanged codec p disk_error channel (exchange_code http decoder s.controller.client now code) s

-- The part of `Disconnect` under the lock.
unfoldable pub drop : System → System
unfolding cancelled
drop s = record s {
  controller = record s.controller { bot = none; token = none; last_err = [] };
  live = cancelled s.controller.bot s.live;
}

unfoldable pub clear_token : Bool → System → System
clear_token removable s = record s { directory = (clear removable s.directory).1 }

unfoldable pub disconnect : Bool → System → System
unfolding drop clear_token broadcast_status
disconnect removable s = broadcast_status (clear_token removable (drop s))

abbrev pub creds_of : Token → Creds
creds_of t = record { access_token = t.access_token; login = t.bot_login; channel = t.channel }

-- What follows the answer to a refresh; a failed `Save` is only logged.
unfoldable pub refreshed : Codec → Progress → Answer Token → System → Answer Creds × System
unfolding set_error save_token adopt
refreshed codec p (wrong e) s = (wrong e, set_error (codes "token refresh failed: " ++ e) s)
refreshed codec p (right t) s = (right (creds_of t), adopt t (save_token codec p t s).1)

unfoldable pub needs_refresh : ℤ → Token → Bool
needs_refresh now t = expired now t && not_empty t.refresh_token

provide : Http → Decoder → Codec → ℤ → Progress → Option Token → System → Answer Creds × System
unfolding needs_refresh refreshed
provide http decoder codec now p none s = (wrong (codes "not connected"), s)
provide http decoder codec now p (some t) s =
    if needs_refresh now t
    then refreshed codec p (refresh http decoder s.controller.client now t) s
    else (right (creds_of t), s)

unfoldable pub credentials : Http → Decoder → Codec → ℤ → Progress → System → Answer Creds × System
unfolding provide
credentials http decoder codec now p s = provide http decoder codec now p s.controller.token s

-- Times are seconds here; a state lasts ten minutes.
prune_states : ℕ → Assoc StateEntry → Assoc StateEntry
prune_states now [] = []
prune_states now ((s, e) ∷ states) =
    let rest = prune_states now states in if ltb e.expires now then rest else (s, e) ∷ rest

unfoldable pub new_state : Rng → ℕ → Text → Assoc StateEntry → Text × Assoc StateEntry
unfolding prune_states
new_state rng now channel states =
    let state = rand_token 32 rng in
    (
      state,
      insert state (record { channel = channel; expires = now + 600 }) (prune_states now states),
    )

consumed : Text → Option StateEntry → Assoc StateEntry → Option Text × Assoc StateEntry
consumed state none states = (none, states)
consumed state (some e) states = (some e.channel, delete state states)

unfoldable pub consume_state : ℕ → Text → Assoc StateEntry → Option Text × Assoc StateEntry
unfolding prune_states consumed
consume_state now state states =
    let left = prune_states now states in consumed state (lookup state left) left
