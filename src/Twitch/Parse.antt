-- ===== src/Twitch/Parse.antt =====
-- internal/twitch/parse.go: a line of the chat as a message, with the sender's rank from the tags.
pub mod Laws
pub mod Ranks
use media_share.Prelude.{
  Bool, true, false, ◌||◌, not, Option, none, some, List, [], ◌∷◌, Text, codes, same, is_empty,
  if◌then◌else◌,
}
use media_share.Strings.{has_prefix, trim_prefix, contains, cut_at, split}

pub record Privmsg : Type 0 where
  pub user : Text
  pub text : Text
  pub is_mod : Bool
  pub is_broadcaster : Bool

tail : Text → Text
tail [] = []
tail (c ∷ s) = s

-- One tag, `key=value`, in the message so far.
with_value : Text → Text → Privmsg → Privmsg
with_value key val m =
    if same key (codes "mod")
    then record m { is_mod = m.is_mod || same val (codes "1") }
    else if same key (codes "badges")
    then record m {
      is_mod = m.is_mod || contains val (codes "moderator/");
      is_broadcaster = m.is_broadcaster || contains val (codes "broadcaster/");
    }
    else if same key (codes "user-type")
    then record m { is_mod = m.is_mod || same val (codes "mod") }
    else m

with_tag : Option (Text × Text) → Privmsg → Privmsg
unfolding with_value
with_tag none m = m
with_tag (some (key, val)) m = with_value key val m

with_tags : List Text → Privmsg → Privmsg
unfolding with_tag
with_tags [] m = m
with_tags (kv ∷ kvs) m = with_tags kvs (with_tag (cut_at kv (codes "=")) m)

unfoldable pub parse_tags : Text → Privmsg → Privmsg
unfolding with_tags
parse_tags tags m = if is_empty tags then m else with_tags (split tags b';') m

-- The tags, without their mark, and the line behind them; `none` is a line that ends in its tags.
take_tags : Text → Option (Text × Text)
unfolding tail
take_tags line =
    if has_prefix line (codes "@")
    then elim (cut_at line (codes " ")) [ none ↦ none | some (tags, rest) ↦ some (tail tags, rest) ]
    else some ([], line)

nick_of : Option (Text × Text) → Text → Text
nick_of none prefix = prefix
nick_of (some (nick, host)) prefix = nick

-- The nick in front of the prefix's exclamation mark.
user_of : Text → Text
unfolding nick_of
user_of prefix = nick_of (cut_at prefix (codes "!")) prefix

message_in : Text → Text → Option (Text × Text) → Option Privmsg
unfolding user_of
message_in tags prefix none = none
message_in tags prefix (some (channel, text)) = some (
    parse_tags tags
      (record { user = user_of prefix; text = text; is_mod = false; is_broadcaster = false }))

command_in : Text → Option (Text × Text) → Option Privmsg
unfolding message_in
command_in tags none = none
command_in tags (some (prefix, rest)) =
    if has_prefix rest (codes "PRIVMSG ")
    then message_in tags prefix (cut_at (trim_prefix rest (codes "PRIVMSG ")) (codes " :"))
    else none

prefixed_in : Option (Text × Text) → Option Privmsg
unfolding command_in tail
prefixed_in none = none
prefixed_in (some (tags, line)) =
    if has_prefix line (codes ":") then command_in tags (cut_at (tail line) (codes " ")) else none

unfoldable pub parse_privmsg : Text → Option Privmsg
unfolding take_tags prefixed_in
parse_privmsg line = prefixed_in (take_tags line)
