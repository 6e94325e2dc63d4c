-- ===== src/Twitch/Bot/Session.antt =====
-- internal/twitch/bot.go: one connection of the bot. The websocket is an argument: whether the dial works,
-- which of the sends works, the messages that come in, and whether a read fails behind them or blocks. The
-- context may be cancelled while the connection is read; its goroutine then closes the connection.
pub mod Lines
pub mod Laws
pub mod Returns
use media_share.Prelude.{
  ℕ, ◌+◌, Bool, true, false, ◌&&◌, ◌||◌, Option, none, some, List, [], ◌∷◌, ◌++◌, Text, codes,
  is_empty, if◌then◌else◌, ◌==◌, take,
}
use media_share.Strings.{has_prefix, trim_prefix, to_lower, trim_space, contains, push}
use media_share.Queue.{Manager, Call, Outcome}
use media_share.Twitch.Bot.{handle_line}

pub record Creds : Type 0 where
  pub access_token : Text
  pub login : Text
  pub channel : Text

pub record Connection : Type 0 where
  pub dialled : Bool
  pub sends : ℕ → Bool
  pub messages : List Text
  pub ends : Bool

-- Why a connection ended. `session` returns an error on every path on which it returns; a panic is told
-- apart, and so is a read that blocks for ever.
pub data Ended : Type 0 where
  no_credentials dial_failed send_failed auth_failed read_failed panicked hanging : Ended

-- The queue, the snapshots of its callback, and what was written to the websocket.
pub record Chat : Type 0 where
  pub manager : Manager
  pub calls : List Call
  pub written : List Text

unfoldable pub ensure_oauth_prefix : Text → Text
ensure_oauth_prefix t =
    let s = trim_space t in
    if is_empty s then s else if has_prefix s (codes "oauth:") then s else codes "oauth:" ++ s

-- strings.SplitSeq at "\r\n"
unfoldable pub split_lines : Text → List Text
split_lines [] = [] ∷ []
split_lines (c ∷ []) = (c ∷ []) ∷ []
split_lines (c ∷ d ∷ s) =
    let rest = split_lines s in
    let more = push c (split_lines (d ∷ s)) in if c == 13 && d == 10 then [] ∷ rest else more

heard : Option (List Text) → Outcome (Option (List Text)) → Chat → Option Ended × Chat
heard none o chat = (some panicked, chat)
heard (some texts) o chat = (
  none,
  record { manager = o.manager; calls = chat.calls ++ o.calls; written = chat.written ++ texts },
)

is_refusal : Text → Bool
is_refusal line =
    contains line (codes "Login authentication failed")
    || contains line (codes "Login unsuccessful")

read_line : Text → Text → Chat → Option Ended × Chat
unfolding heard is_refusal
read_line channel line chat =
    if is_empty line
    then (none, chat)
    else if is_refusal line
    then (some auth_failed, chat)
    else (let o = handle_line channel line chat.manager in heard o.result o chat)

-- The lines of a message, as long as none ends the connection.
pub read_lines : Text → List Text → Chat → Option Ended × Chat
unfolding read_line
read_lines channel [] chat = (none, chat)
read_lines channel (line ∷ lines) chat =
    let (ended, now) = read_line channel line chat in
    let rest = read_lines channel lines now in elim ended [ none ↦ rest | some e ↦ (some e, now) ]

-- `ReadMessage`, behind the last message, fails or blocks.
last_read : Bool → Ended
last_read ends = if ends then read_failed else hanging

read_messages : Text → Bool → List Text → Chat → Ended × Chat
unfolding read_lines split_lines last_read
read_messages channel ends [] chat = (last_read ends, chat)
read_messages channel ends (message ∷ messages) chat =
    let (ended, now) = read_lines channel (split_lines message) chat in
    let rest = read_messages channel ends messages now in
    elim ended [ none ↦ rest | some e ↦ (e, now) ]

-- What the bot sends to log in.
frames : Text → Creds → List Text
unfolding ensure_oauth_prefix
frames channel creds =
    codes "CAP REQ :twitch.tv/tags twitch.tv/commands"
    ∷ (codes "PASS " ++ ensure_oauth_prefix creds.access_token)
    ∷ (codes "NICK " ++ to_lower creds.login)
    ∷ (codes "JOIN #" ++ channel)
    ∷ []

-- Each frame in turn, up to the first send that fails.
send_all : (ℕ → Bool) → ℕ → List Text → Chat → Bool × Chat
send_all sends i [] chat = (true, chat)
send_all sends i (frame ∷ more) chat =
    let rest = send_all sends (i + 1) more (record chat { written = chat.written ++ frame ∷ [] }) in
    if sends i then rest else (false, chat)

listen : Text → Connection → Bool × Chat → Ended × Chat
unfolding read_messages
listen channel conn (true, chat) = read_messages channel conn.ends conn.messages chat
listen channel conn (false, chat) = (send_failed, chat)

-- The goroutine that waits for the context and closes the connection: where the context is cancelled
-- behind that many messages, no further message is read, and the read that waits fails.
unfoldable pub close_on_cancel : Option ℕ → Connection → Connection
close_on_cancel none conn = conn
close_on_cancel (some n) conn = record conn { messages = take n conn.messages; ends = true }

-- The first argument is the number of messages that are read when the context is cancelled, if that is
-- while the connection is read.
unfoldable pub session : Option ℕ → Option Creds → Connection → Chat → Ended × Chat
unfolding send_all frames listen close_on_cancel
session cancel none conn chat = (no_credentials, chat)
session cancel (some creds) conn chat =
    let channel = to_lower (trim_prefix creds.channel (codes "#")) in
    if conn.dialled
    then listen channel (close_on_cancel cancel conn)
        (send_all conn.sends 0 (frames channel creds) chat)
    else (dial_failed, chat)
