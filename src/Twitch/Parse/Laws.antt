-- ===== src/Twitch/Parse/Laws.antt =====
-- What the parser makes of a line that Twitch sends.
use media_share.Prelude.{◌≡◌, refl, false, some, [], ◌∷◌, ◌++◌, Text, codes, arith}
use media_share.Strings.Cuts.{
  Lacks, Lacks-append, cut_at-append, has_prefix-append, trim_prefix-append,
}
use media_share.Twitch.Parse.{parse_tags, parse_privmsg, command_in, message_in, user_of}

-- A tagged line, as the comment of `parsePrivmsg` has it.
abbrev pub tagged_line : Text → Text → Text → Text → Text → Text
tagged_line tags user host channel text =
    codes "@"
    ++ (tags
        ++ (codes " "
            ++ (codes ":"
                ++ ((user ++ (codes "!" ++ host))
                    ++ (codes " " ++ (codes "PRIVMSG " ++ (channel ++ (codes " :" ++ text))))))))

module _ (tags user host channel text : Text) where
  user_of-prefix : Lacks b'!' user → user_of (user ++ (codes "!" ++ host)) ≡ user
  unfolding user_of
  user_of-prefix u = ground (arith, cut_at-append b'!' [] user host u)

  message-read :
      Lacks b' ' channel
      → Lacks b'!' user
      → command_in tags (
          some
            ((user ++ (codes "!" ++ host)), codes "PRIVMSG " ++ (channel ++ (codes " :" ++ text))))
        ≡ some (
            parse_tags tags
              (record { user = user; text = text; is_mod = false; is_broadcaster = false }))
  unfolding command_in message_in
  message-read c u = ground (
    arith,
    has_prefix-append (codes "PRIVMSG ") (channel ++ (codes " :" ++ text)),
    trim_prefix-append (codes "PRIVMSG ") (channel ++ (codes " :" ++ text)),
    cut_at-append b' ' (codes ":") channel text c,
    user_of-prefix u,
  )

  -- A line with tags reads as its nick and text, with the ranks of the tags.
  pub parse_privmsg-tagged_line :
      Lacks b' ' tags
      → Lacks b' ' user
      → Lacks b'!' user
      → Lacks b' ' host
      → Lacks b' ' channel
      → parse_privmsg (tagged_line tags user host channel text)
        ≡ some (
            parse_tags tags
              (record { user = user; text = text; is_mod = false; is_broadcaster = false }))
  unfolding parse_privmsg
  parse_privmsg-tagged_line t u b h c =
      let rest = codes "PRIVMSG " ++ (channel ++ (codes " :" ++ text)) in
      let prefix = user ++ (codes "!" ++ host) in
      let line = codes ":" ++ (prefix ++ (codes " " ++ rest)) in
      let spaceless : Lacks b' ' prefix = Lacks-append b' ' user (codes "!" ++ host) u (refl, h) in
      ground (
        arith,
        has_prefix-append (codes "@") (tags ++ (codes " " ++ line)),
        has_prefix-append (codes ":") (prefix ++ (codes " " ++ rest)),
        cut_at-append b' ' [] (b'@' ∷ tags) line (refl, t),
        cut_at-append b' ' [] prefix rest spaceless,
        message-read c b,
      )
