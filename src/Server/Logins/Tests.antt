-- ===== src/Server/Logins/Tests.antt =====
-- Callbacks of a viewer and of a streamer, and the WebSocket of a player.
use media_share.Prelude.{
  arith, ℕ, ◌≡◌, ◌⊎◌, refl, Bool, true, false, Option, none, some, List, [], ◌∷◌, ◌++◌, Text, codes,
}
use media_share.Random.{Rng, rand_token}
use media_share.Store.Db.{calm}
use media_share.Store.Tests.{shop}
use media_share.Tenant.{new_registry}
use media_share.Oauth.{Client, Http, Decoder, right}
use media_share.Auth.{vsid, Cookie, set_cookie, sid, TwitchUser, Kind, StateInfo, consume_state}
use media_share.Auth.Middleware.{Method, Request}
use media_share.Config
use media_share.Server.{Site}
use media_share.Server.Logins.{Inputs, Query, redirected, handle_auth_callback}
use media_share.Server.Logins.Owners.{Opened, by_twitch, handle_auth_callback-Opened}
use media_share.Server.Logins.Laws.{
  LoggedIn, handle_auth_callback-LoggedIn, handle_auth_callback_once,
}
use media_share.Server.Logins.Viewers.{Entered, handle_auth_callback-Entered}
use media_share.Server.Pages.{handle_ws}
use media_share.Server.Pages.Laws.{Admitted, handle_ws-Admitted}

abbrev bytes : ℕ → Rng
bytes b _ = b

abbrev client : Client
client = record {
  client_id = codes "id";
  client_secret = codes "secret";
  redirect_uri = codes "uri";
}

abbrev inputs : Inputs
inputs = record {
  config = Config.load [];
  oauth = client;
  state_rng = bytes 1;
  fresh = record { key_rng = bytes 2; session_rng = bytes 3; now = 6; secure = false };
  exchange =
      λ code. some (record { id = codes "42"; login = codes "vic"; display_name = codes "Vic" });
  text_of = λ e. codes "failed";
}

abbrev site : Site
site = record {
  world = calm shop;
  states =
      (codes "s", record { expires = 600; kind = Kind.viewer_login; return_to = codes "token" })
      ∷ [];
  registry = new_registry;
  files = [];
  sent = [];
}

abbrev query : Query
query = record { error = []; error_description = []; code = codes "code"; state = codes "s" }

handle_auth_callback-LoggedIn_example :
    ((handle_auth_callback inputs query site).1.world ≡ site.world)
    ⊎ ((info : StateInfo) × ((consume_state inputs.fresh.now query.state site.states).0 ≡ some info)
        × LoggedIn info.kind site.world.db (handle_auth_callback inputs query site).1.world.db)
handle_auth_callback-LoggedIn_example = handle_auth_callback-LoggedIn inputs query site

handle_auth_callback_once_example :
    (handle_auth_callback inputs query (handle_auth_callback inputs query site).1).1.world
    ≡ (handle_auth_callback inputs query site).1.world
unfolding media_share.Prelude.lookup
handle_auth_callback_once_example =
    handle_auth_callback_once inputs inputs query query site (refl, tt) refl refl refl

abbrev request : Request
request = record { method = Method.get; sec_fetch_site = []; sid_cookie = none; vsid_cookie = none }

handle_ws-Admitted_example :
    Admitted 6 request
      (codes "key")
      (calm shop)
      (handle_ws 6 request (codes "player") (codes "key") (calm shop)).0
handle_ws-Admitted_example = handle_ws-Admitted 6 request (codes "player") (codes "key") (calm shop)

abbrev ann_user : TwitchUser
ann_user = record { id = codes "7"; login = codes "Ann"; display_name = codes "Ann" }

abbrev http : Http
http _ = right (record { status = 200; body = codes "{}" })

abbrev decoder : Decoder
decoder = record {
  token_response = λ body. some (record { access_token = codes "t"; error = []; message = [] });
  users = λ body. some (ann_user ∷ []);
}

abbrev owner_site : Site
owner_site = record site {
  states = (codes "s", record { expires = 600; kind = Kind.owner_login; return_to = [] }) ∷ [];
}

abbrev session_cookie : Cookie
session_cookie = set_cookie false sid (rand_token 32 (bytes 3))

lands :
    (handle_auth_callback (by_twitch http decoder inputs) query owner_site).0
    ≡ redirected (codes "/admin") (some session_cookie)
unfolding handle_auth_callback consume_state media_share.Prelude.lookup media_share.Auth.prune
    media_share.Prelude.same media_share.Auth.login media_share.Oauth.exchange_code_for_user
    media_share.Oauth.get_user media_share.Store.People.upsert_streamer
    media_share.Store.People.select_streamer media_share.Prelude.select
    media_share.Store.People.insert_streamer media_share.Prelude.exists rand_token
    media_share.Store.Sessions.create_auth_session media_share.Store.Sessions.insert_auth_session
lands = refl

handle_auth_callback-Opened_example :
    Opened http decoder inputs
      (codes "code")
      session_cookie
      1000
      (handle_auth_callback (by_twitch http decoder inputs) query owner_site).1.world
handle_auth_callback-Opened_example =
    handle_auth_callback-Opened http decoder inputs query owner_site session_cookie 1000
      (omega arith) lands

abbrev viewer_cookie : Cookie
viewer_cookie = set_cookie false vsid (rand_token 32 (bytes 3))

viewer_state :
    (consume_state inputs.fresh.now query.state site.states).0
    ≡ some (record { kind = Kind.viewer_login; return_to = codes "token" })
unfolding consume_state media_share.Prelude.lookup media_share.Auth.prune media_share.Prelude.same
viewer_state = refl

viewer_lands :
    (handle_auth_callback (by_twitch http decoder inputs) query site).0
    ≡ redirected (codes "/s/token") (some viewer_cookie)
unfolding handle_auth_callback consume_state media_share.Prelude.lookup media_share.Auth.prune
    media_share.Prelude.same media_share.Auth.login_viewer media_share.Oauth.exchange_code_for_user
    media_share.Oauth.get_user media_share.Store.People.upsert_viewer
    media_share.Store.People.select_viewer media_share.Prelude.select
    media_share.Store.People.insert_viewer media_share.Prelude.exists
    media_share.Store.Sessions.create_viewer_session
    media_share.Store.Sessions.insert_viewer_session media_share.Strings.Query.path_escape
viewer_lands = refl

handle_auth_callback-Entered_example :
    Entered http decoder inputs
      (codes "code")
      (codes "token")
      (codes "/s/token")
      viewer_cookie
      1000
      (handle_auth_callback (by_twitch http decoder inputs) query site).1.world
handle_auth_callback-Entered_example =
    handle_auth_callback-Entered http decoder inputs query site (codes "token") (codes "/s/token")
      viewer_cookie 1000 (omega arith) viewer_state viewer_lands
