-- ===== src/Twitch/Bot/Session/Laws.antt =====
-- What a connection does to the queue.
use media_share.Prelude.{
  ℕ, ◌+◌, ◌≡◌, ◌≢◌, refl, sym, ◌∙◌, Bool, true, false, ◌&&◌, Option, none, some, List, [], ◌∷◌,
  ◌++◌, take, Text, codes, arith, Bool-cases, inl, inr, if◌then◌else◌,
}
use media_share.Strings.{to_lower, trim_prefix}
use media_share.Queue.{Manager}
use media_share.Queue.Ops.{Op, run}
use media_share.Twitch.Bot.Session.{
  Creds, Connection, Ended, panicked, Chat, split_lines, is_refusal, read_lines, last_read,
  read_messages, send_all, frames, listen, close_on_cancel, session, dial_failed,
}
use media_share.Twitch.Bot.Session.Lines.{ordered, Read, read_lines-Read}

lines_of : List Text → List Text
lines_of [] = []
lines_of (message ∷ messages) = split_lines message ++ lines_of messages

sends_all : (ℕ → Bool) → Bool
sends_all sends = sends 0 && sends 1 && sends 2 && sends 3

-- The messages in front of the cancel, if there is one.
read_before : Option ℕ → List Text → List Text
read_before none messages = messages
read_before (some n) messages = take n messages

-- What a connection orders: nothing, unless it was dialled with credentials and the login was sent.
unfoldable pub session_orders : Option ℕ → Option Creds → Connection → List Op
unfolding ordered lines_of sends_all is_refusal read_before
session_orders cancel none conn = []
session_orders cancel (some creds) conn =
    if conn.dialled && sends_all conn.sends
    then ordered (lines_of (read_before cancel conn.messages))
    else []

-- Where a connection ended, and what it did in all.
abbrev Did : Manager → List Op → Ended × Chat → Type 0
Did m ops (e, c) = (c.manager ≡ run ops m) × (e ≢ panicked)

messages-step :
    (m : Manager) (lines more : List Text) (r : Option Ended × Chat) (rest : Ended × Chat)
    → Read m lines r
    → Did r.1.manager (ordered more) rest
    → Did m (ordered (lines ++ more)) (elim r.0 [ none ↦ rest | some e ↦ (e, r.1) ])
messages-step m lines more (none, c) rest h d = (d.0 ∙ sym (h more), d.1)
messages-step m lines more (some e, c) rest h d = (sym (h.0 more), h.1.0)

messages-Did :
    (channel : Text) (ends : Bool) (messages : List Text) (chat : Chat)
    → Did chat.manager (ordered (lines_of messages)) (read_messages channel ends messages chat)
unfolding read_messages lines_of last_read
messages-Did channel true [] chat = (unfold ordered run in refl, λ same. cc)
messages-Did channel false [] chat = (unfold ordered run in refl, λ same. cc)
messages-Did channel ends (message ∷ messages) chat =
    let r = read_lines channel (split_lines message) chat in
    messages-step chat.manager (split_lines message) (lines_of messages) r
      (read_messages channel ends messages r.1) (read_lines-Read channel (split_lines message) chat)
      (messages-Did channel ends messages r.1)

send_all-manager :
    (sends : ℕ → Bool) (i : ℕ) (frames : List Text) (chat : Chat)
    → (send_all sends i frames chat).1.manager ≡ chat.manager
unfolding send_all
send_all-manager sends i [] chat = refl
send_all-manager sends i (frame ∷ more) chat = elim (Bool-cases (sends i)) [
  | inr fails ↦ rw fails
  | inl goes ↦
      rw goes
        (send_all-manager sends (i + 1) more (record chat { written = chat.written ++ frame ∷ [] }))
]

send_all-frames :
    (sends : ℕ → Bool) (channel : Text) (creds : Creds) (chat : Chat)
    → (send_all sends 0 (frames channel creds) chat).0 ≡ sends_all sends
unfolding send_all frames sends_all
send_all-frames sends channel creds chat = ground arith

listen-Did :
    (channel : Text) (conn : Connection) (m : Manager) (sent : Bool × Chat)
    → sent.1.manager ≡ m
    → Did m (if sent.0 then ordered (lines_of conn.messages) else []) (listen channel conn sent)
unfolding listen
listen-Did channel conn m (true, chat) e =
    rw (← e) (messages-Did channel conn.ends conn.messages chat)
listen-Did channel conn m (false, chat) e = (unfold run in e, λ same. cc)

close-messages :
    (cancel : Option ℕ) (conn : Connection)
    → (close_on_cancel cancel conn).messages ≡ read_before cancel conn.messages
unfolding close_on_cancel read_before
close-messages none conn = refl
close-messages (some n) conn = refl

-- A connection that was dialled or not: both of its sides in one.
dialled-Did :
    (dialled : Bool) (cancel : Option ℕ) (channel : Text) (creds : Creds) (conn : Connection)
    (chat : Chat)
    → Did chat.manager
        (if dialled && sends_all conn.sends
          then ordered (lines_of (read_before cancel conn.messages))
          else [])
        (if dialled
          then listen channel
              (close_on_cancel cancel conn)
              (send_all conn.sends 0 (frames channel creds) chat)
          else (dial_failed, chat))
dialled-Did false cancel channel creds conn chat = (unfold run in refl, λ same. cc)
dialled-Did true cancel channel creds conn chat =
    rw (← send_all-frames conn.sends channel creds chat, ← close-messages cancel conn)
      (listen-Did channel (close_on_cancel cancel conn) chat.manager
        (send_all conn.sends 0 (frames channel creds) chat)
        (send_all-manager conn.sends 0 (frames channel creds) chat))

-- A connection does to the queue exactly what the lines that it reads order, one after another, up to
-- the line that refuses the login; without credentials, a dial or the whole login it does nothing. Where the
-- context is cancelled on the way, these are the lines of the messages in front of that. It never panics.
pub session-orders :
    (cancel : Option ℕ) (creds : Option Creds) (conn : Connection) (chat : Chat)
    → ((session cancel creds conn chat).1.manager
        ≡ run (session_orders cancel creds conn) chat.manager)
      × ((session cancel creds conn chat).0 ≢ panicked)
unfolding session session_orders
session-orders cancel none conn chat = (unfold run in refl, λ same. cc)
session-orders cancel (some creds) conn chat =
    dialled-Did conn.dialled cancel (to_lower (trim_prefix creds.channel (codes "#"))) creds conn
      chat
