-- ===== src/Twitch/Bot/Session/Returns.antt =====
-- A connection whose context is cancelled returns.
use media_share.Prelude.{
  ℕ, ◌≢◌, Bool, true, false, Option, none, some, List, [], ◌∷◌, take, Text, codes, if◌then◌else◌,
}
use media_share.Strings.{to_lower, trim_prefix}
use media_share.Queue.{Manager}
use media_share.Twitch.Bot.Session.{
  Creds, Connection, Ended, Chat, split_lines, read_lines, last_read, read_messages, send_all,
  frames, listen, close_on_cancel, session, hanging, dial_failed,
}
use media_share.Twitch.Bot.Session.Lines.{Read, read_lines-Read}

returned :
    (m : Manager) (lines : List Text) (r : Option Ended × Chat) (rest : Ended × Chat)
    → Read m lines r
    → rest.0 ≢ hanging
    → (elim r.0 as (λ x. Ended × Chat) [ none ↦ rest | some e ↦ (e, r.1) ]).0 ≢ hanging
returned m lines (none, c) rest h later = later
returned m lines (some e, c) rest h later = h.1.1

-- A read that fails behind the messages is no read that blocks.
messages-returns :
    (channel : Text) (messages : List Text) (chat : Chat)
    → (read_messages channel true messages chat).0 ≢ hanging
unfolding read_messages last_read
messages-returns channel [] chat = λ same. cc
messages-returns channel (message ∷ messages) chat =
    let r = read_lines channel (split_lines message) chat in
    returned chat.manager (split_lines message) r (read_messages channel true messages r.1)
      (read_lines-Read channel (split_lines message) chat) (messages-returns channel messages r.1)

listen-returns :
    (channel : Text) (n : ℕ) (conn : Connection) (sent : Bool × Chat)
    → (listen channel (close_on_cancel (some n) conn) sent).0 ≢ hanging
unfolding listen close_on_cancel
listen-returns channel n conn (true, chat) = messages-returns channel (take n conn.messages) chat
listen-returns channel n conn (false, chat) = λ same. cc

dialled-returns :
    (dialled : Bool) (channel : Text) (n : ℕ) (conn : Connection) (sent : Bool × Chat) (chat : Chat)
    → (if dialled
        then listen channel (close_on_cancel (some n) conn) sent
        else (dial_failed, chat)).0
      ≢ hanging
dialled-returns true channel n conn sent chat = listen-returns channel n conn sent
dialled-returns false channel n conn sent chat = λ same. cc

-- A session whose context is cancelled while it reads returns, even if the other side stays silent.
pub session-returns :
    (n : ℕ) (creds : Option Creds) (conn : Connection) (chat : Chat)
    → (session (some n) creds conn chat).0 ≢ hanging
unfolding session
session-returns n none conn chat = λ same. cc
session-returns n (some creds) conn chat =
    let channel = to_lower (trim_prefix creds.channel (codes "#")) in
    dialled-returns conn.dialled channel n conn (send_all conn.sends 0 (frames channel creds) chat)
      chat
