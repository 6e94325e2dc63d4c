-- ===== src/Twitch/Tests.antt =====
-- A moderator's line, a connection, and the loop around it.
use media_share.Prelude.{
  ℕ, zero, suc, ◌+◌, ◌*◌, ◌≡◌, ◌≢◌, ◌≤◌, ◌⊎◌, refl, sym, subst, Bool, true, false, ◌||◌, Option,
  some, none, List, [], ◌∷◌, ◌++◌, Text, codes, is_empty, leb, get_elem?, arith,
}
use media_share.Queue.{new_manager}
use media_share.Queue.Ops.{Op, run, step}
use media_share.Twitch.Parse.{Privmsg, parse_privmsg}
use media_share.Twitch.Parse.Laws.{tagged_line}
use media_share.Strings.Cuts.{lacks-Lacks}
use media_share.Twitch.Parse.Ranks.{
  AreTags, any, makes_broadcaster, makes_mod, parse_privmsg-ranked, tags_text,
}
use media_share.Twitch.Bot.{handle_line}
use media_share.Twitch.Bot.Ranks.{handle_line-ranked, is_chat}
use media_share.Twitch.Bot.Session.{Chat, Connection, Creds, Ended, session, split_lines}
use media_share.Twitch.Bot.Session.Laws.{session-orders, session_orders}
use media_share.Twitch.Bot.Backoff.{End, IsLasting, Round}
use media_share.Twitch.Bot.Backoff.Returns.{run-returns}
use media_share.Twitch.Bot.Backoff.Waits.{run-waits, wait_behind}
use media_share.Twitch.Bot.Backoff

tagged_test :
    parse_privmsg
      (codes "@badges=broadcaster/1;mod=0 :ann!ann@ann.tmi.twitch.tv PRIVMSG #ann :!skip now")
    ≡ some (record {
      user = codes "ann";
      text = codes "!skip now";
      is_mod = false;
      is_broadcaster = true;
    })
unfolding parse_privmsg media_share.Strings.has_prefix media_share.Strings.cut_at
    media_share.Strings.trim_prefix media_share.Twitch.Parse.parse_tags media_share.Strings.split
    media_share.Prelude.same media_share.Strings.contains
tagged_test = refl

abbrev tags : List (Text × Text)
tags = (codes "badges", codes "moderator/1") ∷ (codes "mod", codes "1") ∷ []

tags-AreTags : AreTags tags
tags-AreTags = (
  (
    (lacks-Lacks b'=' (codes "badges") refl),
    (lacks-Lacks b';' (codes "badges") refl),
    (lacks-Lacks b' ' (codes "badges") refl),
    (lacks-Lacks b';' (codes "moderator/1") refl),
    (lacks-Lacks b' ' (codes "moderator/1") refl),
  ),
  (
    (
      (lacks-Lacks b'=' (codes "mod") refl),
      (lacks-Lacks b';' (codes "mod") refl),
      (lacks-Lacks b' ' (codes "mod") refl),
      (lacks-Lacks b';' (codes "1") refl),
      (lacks-Lacks b' ' (codes "1") refl),
    ),
    tt,
  ),
)

parse_privmsg-ranked_example :
    parse_privmsg (
      tagged_line
        (tags_text tags)
        (codes "mo")
        (codes "mo@tw.tv")
        (codes "#ann")
        (codes "!clear all"))
    ≡ some (record {
      user = codes "mo";
      text = codes "!clear all";
      is_mod = any makes_mod tags;
      is_broadcaster = any makes_broadcaster tags;
    })
parse_privmsg-ranked_example =
    parse_privmsg-ranked tags (codes "mo") (codes "mo@tw.tv") (codes "#ann") (codes "!clear all")
      tags-AreTags (lacks-Lacks b' ' (codes "mo") refl) (lacks-Lacks b'!' (codes "mo") refl)
      (lacks-Lacks b' ' (codes "mo@tw.tv") refl) (lacks-Lacks b' ' (codes "#ann") refl)

abbrev line : Text
line = codes "@mod=1 :mo!mo@tw.tv PRIVMSG #ann :!skip"

handle_line-ranked_example :
    (((handle_line (codes "ann") line (new_manager none)).manager ≡ new_manager none)
      × ((handle_line (codes "ann") line (new_manager none)).retired ≡ [])
      × ((handle_line (codes "ann") line (new_manager none)).calls ≡ []))
    ⊎ ((op : Op) × (p : Privmsg) × (parse_privmsg line ≡ some p)
        × ((p.is_mod || p.is_broadcaster) ≡ true)
        × (is_chat op ≡ true)
        × ((handle_line (codes "ann") line (new_manager none)).manager
            ≡ (step op (new_manager none)).manager)
        × ((handle_line (codes "ann") line (new_manager none)).retired
            ≡ (step op (new_manager none)).retired)
        × ((handle_line (codes "ann") line (new_manager none)).calls
            ≡ (step op (new_manager none)).calls))
handle_line-ranked_example = handle_line-ranked (codes "ann") line (new_manager none)

abbrev creds : Option Creds
creds = some (record { access_token = codes "t"; login = codes "Bot"; channel = codes "#Ann" })

abbrev connection : Connection
connection = record { dialled = true; sends = λ _. true; messages = line ∷ []; ends = true }

abbrev chat : Chat
chat = record { manager = new_manager none; calls = []; written = [] }

session-orders_example :
    ((session (some 1) creds connection chat).1.manager
      ≡ run (session_orders (some 1) creds connection) chat.manager)
    × ((session (some 1) creds connection chat).0 ≢ Ended.panicked)
session-orders_example = session-orders (some 1) creds connection chat

-- The login, the pong and the reply to a moderator.
session_test :
    (session none creds connection chat).1.written
    ≡ codes "CAP REQ :twitch.tv/tags twitch.tv/commands"
      ∷ codes "PASS oauth:t"
      ∷ codes "NICK bot"
      ∷ codes "JOIN #ann"
      ∷ (codes "PRIVMSG #ann :" ++ (0xE2 ∷ 0x8F ∷ 0xAD ∷ codes " Skipped."))
      ∷ []
unfolding session media_share.Strings.contains handle_line parse_privmsg media_share.Strings.cut_at
    media_share.Strings.trim_prefix media_share.Strings.trim_space
    media_share.Twitch.Parse.parse_tags media_share.Strings.split media_share.Prelude.same
    media_share.Strings.fields media_share.Strings.to_lower
session_test = refl

split_lines_test : split_lines (codes "a\r\nb\r\n") ≡ codes "a" ∷ codes "b" ∷ [] ∷ []
unfolding split_lines
split_lines_test = refl

-- Cancelled at the fifth question.
abbrev done : ℕ → Bool
done n = leb 4 n

done-IsLasting : IsLasting done
done-IsLasting i j h at = ground arith

-- The other side keeps it open and is silent behind the line.
abbrev silent : Connection
silent = record connection { ends = false }

silent_test : (session none creds silent chat).0 ≡ Ended.hanging
unfolding session media_share.Strings.contains handle_line parse_privmsg media_share.Strings.cut_at
    media_share.Strings.trim_prefix media_share.Strings.trim_space
    media_share.Twitch.Parse.parse_tags media_share.Strings.split media_share.Prelude.same
    media_share.Strings.fields media_share.Strings.to_lower
silent_test = refl

abbrev silent_round : Round
silent_round = record { creds = creds; connection = silent; read_before = 1 }

abbrev undialled_round : Round
undialled_round = record silent_round { connection = record silent { dialled = false } }

-- A dial that fails, and a silent connection, in which the context is cancelled.
abbrev held_rounds : List Round
held_rounds = undialled_round ∷ silent_round ∷ silent_round ∷ silent_round ∷ []

held :
    (j : ℕ) (r : Round) (c : Chat)
    → get_elem? held_rounds j ≡ some r
    → (session none r.creds r.connection c).0 ≡ Ended.hanging
    → done (3 * j + 1) ≡ true
unfolding session
held zero r c at hangs =
    let same : undialled_round ≡ r = cc in
    let fails : Ended.dial_failed ≡ Ended.hanging =
      subst (λ (q : Round). (session none q.creds q.connection c).0 ≡ Ended.hanging) (sym same)
        hangs in
    cc
held (suc j) r c at hangs = ground arith

run-returns_example : (Backoff.run done held_rounds chat).end ≡ End.cancelled
run-returns_example = run-returns done done-IsLasting 4 held_rounds chat held refl (omega arith)

-- The session of the second round returns because the cancel closes its connection.
held_test : (Backoff.run done held_rounds chat).waits ≡ 1 ∷ []
unfolding Backoff.run session media_share.Strings.contains handle_line parse_privmsg
    media_share.Strings.cut_at media_share.Strings.trim_prefix media_share.Strings.trim_space
    media_share.Twitch.Parse.parse_tags media_share.Strings.split media_share.Prelude.same
    media_share.Strings.fields media_share.Strings.to_lower
held_test = refl

abbrev rounds : List Round
rounds =
    let r : Round = record { creds = creds; connection = connection; read_before = 0 } in
    r ∷ r ∷ r ∷ r ∷ []

abbrev never : ℕ → Bool
never n = false

never-IsLasting : IsLasting never
never-IsLasting i j h at = at

waits-fourth : get_elem? (Backoff.run never rounds chat).waits 3 ≡ some 8
unfolding Backoff.run session media_share.Strings.contains handle_line parse_privmsg
    media_share.Strings.cut_at media_share.Strings.trim_prefix media_share.Strings.trim_space
    media_share.Twitch.Parse.parse_tags media_share.Strings.split media_share.Prelude.same
    media_share.Strings.fields media_share.Strings.to_lower
waits-fourth = refl

run-waits_example : 8 ≡ wait_behind 3
run-waits_example = run-waits never never-IsLasting rounds chat 3 8 waits-fourth
