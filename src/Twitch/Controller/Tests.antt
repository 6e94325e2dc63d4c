-- ===== src/Twitch/Controller/Tests.antt =====
-- The bot's account: its token file, its bots, and a disconnection.
use media_share.Prelude.{
  ◌≡◌, ◌⊎◌, refl, true, false, Option, some, none, List, [], ◌∷◌, Text, codes, is_empty,
}
use media_share.Prelude.Int.{pos}
use media_share.Oauth.{right, Http, post_form, get_with, Client}
use media_share.Twitch.Sample.{codec, codec-IsFaithful}
use media_share.Twitch.Oauth.{Decoder, Token, TokenResponse, expired, refresh}
use media_share.Twitch.Files.{Directory, Progress, found, get, save}
use media_share.Twitch.Files.Laws.{save_atomic}
use media_share.Twitch.Controller.{
  System, connect, credentials, disconnect, needs_refresh, new_controller, refreshed, start,
}
use media_share.Twitch.Controller.Moves.{IsSingle, Move, run-IsSingle}
use media_share.Twitch.Controller.Moves
use media_share.Twitch.Controller.Laws.{
  connect-start, disconnect-undone, reopened, restarted, resumed,
}

abbrev client : Client
client = record { client_id = codes "id"; client_secret = codes "s"; redirect_uri = codes "u" }

abbrev http : Http
http (post_form url form) = right (record { status = 200; body = codes "token" })
http (get_with url id token) = right (record { status = 200; body = codes "user" })

abbrev decoder : Decoder
decoder = record {
  token_response = λ body. some (record {
    access_token = codes "new";
    refresh_token = [];
    expires_in = pos 3600;
    error = [];
    message = [];
  });
  logins = λ body. some (codes "Bot" ∷ []);
}

abbrev token : Token
token = record {
  bot_login = codes "bot";
  channel = codes "ann";
  access_token = codes "new";
  refresh_token = codes "r";
  expires_at = pos 7;
}

abbrev empty : Directory
empty = record { token_file = none; temp_file = none }

abbrev system : System
system = record {
  controller = record (new_controller client true) { root = true };
  directory = empty;
  next_bot = 0;
  live = [];
  sent = [];
}

-- Two connections and a disconnection that interleave.
abbrev moves : List Move
moves =
    Move.save Progress.saved token
    ∷ Move.adopt token
    ∷ Move.launch
    ∷ Move.adopt token
    ∷ Move.launch
    ∷ Move.drop
    ∷ Move.launch
    ∷ []

run-IsSingle_example : IsSingle (Moves.run codec moves system)
unfolding new_controller
run-IsSingle_example = run-IsSingle codec moves system (record { one = refl })

save_atomic_example :
    (((save codec (Progress.write_stopped 4) token empty).0 ≡ true)
      × (get codec true (save codec (Progress.write_stopped 4) token empty).1 ≡ found token))
    ⊎ (((save codec (Progress.write_stopped 4) token empty).0 ≡ false)
        × (get codec true (save codec (Progress.write_stopped 4) token empty).1
            ≡ get codec true empty))
save_atomic_example = save_atomic codec (Progress.write_stopped 4) token empty codec-IsFaithful refl

abbrev old : Token
old = record token { access_token = codes "old" }

-- A bot runs with a token that has ended.
abbrev connected : System
connected = record system {
  controller = record (new_controller client true) { root = true; token = some old; bot = some 0 };
  directory = (save codec Progress.saved old empty).1;
  next_bot = 1;
  live = 0 ∷ [];
}

abbrev renewed : Token
renewed = record old { access_token = codes "new"; expires_at = pos 3_600_000_000_007 }

renews : refresh http decoder client (pos 7) old ≡ right renewed
unfolding refresh media_share.Twitch.Oauth.post_token media_share.Twitch.Oauth.ends_at
    media_share.Prelude.Int.◌+ℤ◌ media_share.Prelude.Int.int64 media_share.Prelude.Int.scale
renews = refl

disconnect-undone_example :
    (credentials http decoder codec (pos 7) Progress.saved connected
      ≡ refreshed codec Progress.saved (right renewed) connected)
    × (((disconnect true connected).controller.token ≡ none)
        × ((disconnect true connected).live ≡ [])
        × ((reopened codec client (disconnect true connected)).controller.token ≡ none)
        × ((reopened codec client (disconnect true connected)).controller.bot ≡ none))
    × (((resumed codec renewed connected).controller.token ≡ some renewed)
        × ((reopened codec client (resumed codec renewed connected)).controller.token
            ≡ some renewed)
        × ((reopened codec client (resumed codec renewed connected)).controller.bot ≡ some 0))
    × (renewed.bot_login ≡ old.bot_login)
    × (renewed.channel ≡ old.channel)
unfolding new_controller media_share.Prelude.Int.◌+ℤ◌
disconnect-undone_example =
    disconnect-undone http decoder codec (pos 7) old renewed connected codec-IsFaithful
      (record { one = refl }) refl (unfold needs_refresh expired in refl) renews

abbrev joined : Option Text × System
joined = connect http decoder codec (pos 5) Progress.saved [] (codes "code") (codes " #Ann") system

joins : joined.0 ≡ none
unfolding connect media_share.Twitch.Oauth.exchange_code media_share.Twitch.Oauth.post_token
    media_share.Twitch.Oauth.get_user_login save
joins = refl

connect-start_example :
    (t : Token) × (joined.1.controller.token ≡ some t)
    × (is_empty t.access_token ≡ false)
    × ((start codec true none (restarted client joined.1.directory)).controller.token ≡ some t)
    × ((start codec true none (restarted client joined.1.directory)).controller.bot ≡ some 0)
unfolding new_controller
connect-start_example =
    connect-start http decoder codec (pos 5) Progress.saved [] (codes "code") (codes " #Ann") system
      codec-IsFaithful joins
