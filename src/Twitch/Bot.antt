-- ===== src/Twitch/Bot.antt =====
-- internal/twitch/bot.go: the commands of the chat. The bot acts on the queue's manager, with what the
-- methods report; `result` has the messages that it writes, and is `none` for an index out of range.
pub mod Orders
pub mod Session
pub mod Backoff
pub mod Ranks
use media_share.Prelude.{
  ℕ, ◌+◌, ◌*◌, ◌/◌, ◌%◌, Bool, true, false, not, ◌&&◌, ◌||◌, Option, none, some, List, [], ◌∷◌,
  ◌++◌, Text, codes, same, is_empty, ltb, if◌then◌else◌,
}
use media_share.Strings.{has_prefix, to_lower, trim_space, fields}
use media_share.Queue
use media_share.Queue.{Item, Manager, Outcome, unchanged}
use media_share.Twitch.Parse.{Privmsg, parse_privmsg}

-- The bytes of a code point, and of the literals that are not ASCII.
encoded : ℕ → Text
encoded c =
    if ltb c 0x80
    then c ∷ []
    else if ltb c 0x800
    then (0xC0 + c / 64) ∷ (0x80 + c % 64) ∷ []
    else if ltb c 0x10000
    then (0xE0 + c / 4096) ∷ (0x80 + c / 64 % 64) ∷ (0x80 + c % 64) ∷ []
    else (0xF0 + c / 262144) ∷ (0x80 + c / 4096 % 64) ∷ (0x80 + c / 64 % 64) ∷ (0x80 + c % 64) ∷ []

unfoldable pub utf8 : Text → Text
unfolding encoded
utf8 [] = []
utf8 (c ∷ s) = encoded c ++ utf8 s

unfoldable pub reply : Text → Text → Text
reply channel text = codes "PRIVMSG #" ++ (channel ++ (codes " :" ++ text))

saying : Text → Text → Outcome (Unit {0}) → Outcome (Option (List Text))
unfolding reply utf8
saying channel text o = record {
  manager = o.manager;
  result = some (reply channel (utf8 text) ∷ []);
  retired = o.retired;
  calls = o.calls;
}

submitter : Item → Text
submitter it =
    if is_empty it.submitter_name then [] else codes " (by " ++ (it.submitter_name ++ codes ")")

current_text : Option Item → Text
unfolding utf8 submitter
current_text none = codes "Nothing is playing right now."
current_text (some it) = utf8 (codes "▶ Now playing: ") ++ (it.title ++ submitter it)

-- `len(fields) > 1 && strings.EqualFold(fields[1], "all")`
wants_all : List Text → Bool
wants_all [] = false
wants_all (arg ∷ args) = same (to_lower arg) (codes "all")

one_of : Text → List Text → Bool
one_of cmd [] = false
one_of cmd (c ∷ cs) = same cmd c || one_of cmd cs

-- The command and the arguments of a sender with a rank.
dispatch : Text → Text → List Text → Manager → Outcome (Option (List Text))
unfolding saying current_text wants_all one_of
dispatch channel cmd args m =
    if one_of cmd (codes "!skip" ∷ codes "!next" ∷ [])
    then saying channel (codes "⏭ Skipped.") (Queue.skip m)
    else if one_of cmd (codes "!pause" ∷ [])
    then saying channel (codes "⏸ Paused.") (Queue.pause m)
    else if one_of cmd (codes "!resume" ∷ codes "!play" ∷ codes "!unpause" ∷ [])
    then saying channel (codes "▶ Resumed.") (Queue.resume m)
    else if one_of cmd (codes "!clear" ∷ [])
    then saying channel
        (if wants_all args then codes "🗑 Cleared everything." else codes "🧹 Cleared the queue.")
        (Queue.clear (wants_all args) m)
    else if one_of cmd (codes "!current" ∷ codes "!nowplaying" ∷ codes "!np" ∷ [])
    then unchanged m (some (reply channel (current_text (Queue.now_playing_item m)) ∷ []))
    else unchanged m (some [])

-- `fields[0]` is out of range where there are no fields.
with_fields : Text → Bool → List Text → Manager → Outcome (Option (List Text))
unfolding dispatch
with_fields channel may [] m = unchanged m none
with_fields channel may (cmd ∷ args) m =
    if not may then unchanged m (some []) else dispatch channel (to_lower cmd) args m

handle_message : Text → Option Privmsg → Manager → Outcome (Option (List Text))
unfolding with_fields
handle_message channel none m = unchanged m (some [])
handle_message channel (some msg) m =
    if has_prefix (trim_space msg.text) (codes "!")
    then with_fields channel (msg.is_mod || msg.is_broadcaster) (fields (trim_space msg.text)) m
    else unchanged m (some [])

unfoldable pub handle_line : Text → Text → Manager → Outcome (Option (List Text))
unfolding handle_message
handle_line channel line m =
    if has_prefix line (codes "PING")
    then unchanged m (some (codes "PONG :tmi.twitch.tv" ∷ []))
    else handle_message channel (parse_privmsg line) m
