-- ===== src/Twitch/Controller/Laws.antt =====
-- What connecting, refreshing and disconnecting leave behind.
use media_share.Prelude.{◌≡◌, refl, true, false, Option, none, some, [], Text, is_empty, arith}
use media_share.Prelude.Int.{ℤ}
use media_share.Oauth.{Answer, right, wrong, Http, Client}
use media_share.Twitch.Oauth.{Token, Decoder, exchange_code, refresh}
use media_share.Twitch.Oauth.Laws.{exchange_code-not_empty, refresh-right}
use media_share.Twitch.Files.{Codec, Directory, found, no_token, Progress, get, save, saved}
use media_share.Twitch.Files.Laws.{IsFaithful, clear-get, save-get}
use media_share.Twitch.Controller.{
  System, new_controller, start, started, start_token, connect, exchanged, kept, named, disconnect,
  drop, refreshed, status, broadcast_status, save_token, clear_token, adopt, start_bot, credentials,
  provide, needs_refresh,
}
use media_share.Twitch.Controller.Moves.{IsSingle, drop-live}

-- Telling the status changes nothing but what was told.
broadcast-same :
    (s : System)
    → ((broadcast_status s).controller ≡ s.controller)
      × ((broadcast_status s).directory ≡ s.directory)
      × ((broadcast_status s).live ≡ s.live)
unfolding broadcast_status
broadcast-same s = (ground arith, ground arith, ground arith)

-- Behind a `Disconnect` whose file can be removed no token is stored.
disconnect-no_token :
    (codec : Codec) (s : System) → get codec true (disconnect true s).directory ≡ no_token
unfolding disconnect clear_token
disconnect-no_token codec s =
    let (c, d, l) = broadcast-same (clear_token true (drop s)) in
    rw d (clear-get codec (drop s).directory)

-- Where at most the controller's own bot runs, `Disconnect` ends it and takes the account away: the
-- status is not connected, no bot runs, and, if the file can be removed, no token is stored.
disconnect_lem :
    (codec : Codec) (s : System)
    → IsSingle s
    → ((status (disconnect true s).controller).connected ≡ false)
      × ((disconnect true s).controller.token ≡ none)
      × ((disconnect true s).live ≡ [])
      × (get codec true (disconnect true s).directory ≡ no_token)
unfolding disconnect clear_token status
disconnect_lem codec s h =
    let (c, d, l) = broadcast-same (clear_token true (drop s)) in
    (
      rw c (unfold drop in refl),
      rw c (unfold drop in refl),
      rw l (drop-live s h),
      disconnect-no_token codec s,
    )

-- `Start` on the directory in which a token is found takes this token and starts a bot.
start-found :
    (codec : Codec) (legacy : Option Token) (t : Token) (s : System)
    → get codec true s.directory ≡ found t
    → ((start codec true legacy s).controller.token ≡ some t)
      × ((start codec true legacy s).controller.bot ≡ some s.next_bot)
unfolding start start_token started
start-found codec legacy t s h =
    let (c, d, l) =
      broadcast-same (
        start_bot
          (record s { controller = record s.controller { root = true; token = some t } })) in
    rw h (rw c (unfold start_bot in refl), rw c (unfold start_bot in refl))

-- The program started anew on a directory.
abbrev pub restarted : Client → Directory → System
restarted c dir = record {
  controller = new_controller c true;
  directory = dir;
  next_bot = 0;
  live = [];
  sent = [];
}

-- `Start` on a directory without a token, and without a legacy one, starts no bot.
start-none :
    (codec : Codec) (s : System)
    → get codec true s.directory ≡ no_token
    → ((start codec true none s).controller.token ≡ s.controller.token)
      × ((start codec true none s).controller.bot ≡ s.controller.bot)
unfolding start start_token started
start-none codec s h =
    let (c, d, l) =
      broadcast-same (record s { controller = record s.controller { root = true } }) in
    rw h (rw c refl, rw c refl)

-- The program started anew on what a call left.
abbrev pub reopened : Codec → Client → System → System
reopened codec c s = start codec true none (restarted c s.directory)

-- What a refresh of the account goes on to do behind a `Disconnect`.
abbrev pub resumed : Codec → Token → System → System
resumed codec t s = (refreshed codec saved (right t) (disconnect true s)).1

disconnect-reopened :
    (codec : Codec) (c : Client) (s : System)
    → ((reopened codec c (disconnect true s)).controller.token ≡ none)
      × ((reopened codec c (disconnect true s)).controller.bot ≡ none)
unfolding new_controller
disconnect-reopened codec c s =
    start-none codec (restarted c (disconnect true s).directory) (disconnect-no_token codec s)

resumed-reopened :
    (codec : Codec) (c : Client) (t : Token) (s : System)
    → IsFaithful codec
    → is_empty t.access_token ≡ false
    → ((reopened codec c (resumed codec t s)).controller.token ≡ some t)
      × ((reopened codec c (resumed codec t s)).controller.bot ≡ some 0)
unfolding refreshed save_token adopt
resumed-reopened codec c t s json there =
    start-found codec none t (restarted c _)
      (save-get codec t (disconnect true s).directory json there)

-- `Disconnect` is undone by a refresh that has its answer when it runs. The connected account needs a
-- refresh, so that `credentials` takes up what the refresh answers. Behind the `Disconnect` alone the
-- controller has no account, no bot runs, and the program, started anew, has none either. Where the
-- `Disconnect` runs in front of what `credentials` does with the answer, the controller has the refreshed
-- token, and the program, started anew, takes it up and starts its bot; the token is that of the account and
-- the channel that were disconnected. At most the controller's own bot runs before, the disk works, and the
-- JSON decoder reads back what the encoder writes.
pub disconnect-undone :
    (http : Http) (decoder : Decoder) (codec : Codec) (now : ℤ) (old t : Token) (s : System)
    → IsFaithful codec
    → IsSingle s
    → s.controller.token ≡ some old
    → needs_refresh now old ≡ true
    → refresh http decoder s.controller.client now old ≡ right t
    → (credentials http decoder codec now saved s ≡ refreshed codec saved (right t) s)
      × (((disconnect true s).controller.token ≡ none)
          × ((disconnect true s).live ≡ [])
          × ((reopened codec s.controller.client (disconnect true s)).controller.token ≡ none)
          × ((reopened codec s.controller.client (disconnect true s)).controller.bot ≡ none))
      × (((resumed codec t s).controller.token ≡ some t)
          × ((reopened codec s.controller.client (resumed codec t s)).controller.token ≡ some t)
          × ((reopened codec s.controller.client (resumed codec t s)).controller.bot ≡ some 0))
      × (t.bot_login ≡ old.bot_login)
      × (t.channel ≡ old.channel)
unfolding credentials provide
disconnect-undone http decoder codec now old t s json single connected stale answered =
    let (tr, asked, access, there, login, channel, kept_token, ends) =
      refresh-right http decoder s.controller.client now old t answered in
    let (status_off, token_off, live_off, stored_off) = disconnect_lem codec s single in
    let (none_again, no_bot) = disconnect-reopened codec s.controller.client s in
    let (again, bot) = resumed-reopened codec s.controller.client t s json there in
    (
      rw (connected, stale, answered) refl,
      (token_off, live_off, none_again, no_bot),
      (unfold refreshed adopt in refl, again, bot),
      login,
      channel,
    )

start_bot-directory :
    (s : System)
    → ((start_bot s).directory ≡ s.directory)
      × ((start_bot s).controller.token ≡ s.controller.token)
unfolding start_bot
start_bot-directory s = (ground arith, ground arith)

kept-none :
    (codec : Codec) (p : Progress) (e : Text) (t : Token) (s : System)
    → IsFaithful codec
    → is_empty t.access_token ≡ false
    → (kept e t (save_token codec p t s)).0 ≡ none
    → ((kept e t (save_token codec p t s)).1.controller.token ≡ some t)
      × (get codec true (kept e t (save_token codec p t s)).1.directory ≡ found t)
unfolding kept save_token
kept-none codec Progress.no_directory e t s json there h = unfold save in cc
kept-none codec Progress.unmarshalled e t s json there h = unfold save in cc
kept-none codec (Progress.write_stopped n) e t s json there h = unfold save in cc
kept-none codec Progress.not_renamed e t s json there h = unfold save in cc
kept-none codec Progress.saved e t s json there h =
    let s' = adopt t (save_token codec saved t s).1 in
    let (c, d, l) = broadcast-same (start_bot s') in
    let (d', c') = start_bot-directory s' in
    unfold save in
    (
      rw c (rw c' (unfold adopt in refl)),
      rw d (rw d' (unfold adopt in save-get codec t s.directory json there)),
    )

-- The account that a call left with the controller, and that is stored.
abbrev Connected : Codec → System → Type 0
Connected codec s =
    (t : Token) × (s.controller.token ≡ some t)
    × (is_empty t.access_token ≡ false)
    × (get codec true s.directory ≡ found t)

exchanged-none :
    (codec : Codec) (p : Progress) (e channel : Text) (a : Answer Token) (s : System)
    → IsFaithful codec
    → ((t : Token) → a ≡ right t → is_empty t.access_token ≡ false)
    → (exchanged codec p e channel a s).0 ≡ none
    → Connected codec (exchanged codec p e channel a s).1
unfolding exchanged
exchanged-none codec p e channel (wrong error) s json there h = cc
exchanged-none codec p e channel (right t) s json there h =
    let named_there : is_empty (named channel t).access_token ≡ false =
      unfold named in there t refl in
    let (token, stored) = kept-none codec p e (named channel t) s json named_there h in
    (named channel t, token, named_there, stored)

-- With a JSON encoder that its decoder reads back, a `Connect` that succeeds leaves the controller an
-- account with an access token, and the program, started anew on the directory, takes that account up
-- again and starts its bot.
pub connect-start :
    (http : Http) (decoder : Decoder) (codec : Codec) (now : ℤ) (p : Progress)
    (e code channel : Text) (s : System)
    → IsFaithful codec
    → (connect http decoder codec now p e code channel s).0 ≡ none
    → (t : Token) × ((connect http decoder codec now p e code channel s).1.controller.token
        ≡ some t)
      × (is_empty t.access_token ≡ false)
      × ((start codec true none (
            restarted s.controller.client
              (connect http decoder codec now p e code channel s).1.directory)).controller.token
          ≡ some t)
      × ((start codec true none (
            restarted s.controller.client
              (connect http decoder codec now p e code channel s).1.directory)).controller.bot
          ≡ some 0)
unfolding connect
connect-start http decoder codec now p e code channel s json h =
    let (t, token, there, stored) =
      exchanged-none codec p e channel (exchange_code http decoder s.controller.client now code) s
        json (exchange_code-not_empty http decoder s.controller.client now code) h in
    let (again, bot) = start-found codec none t (restarted s.controller.client _) stored in
    (t, token, there, again, bot)
