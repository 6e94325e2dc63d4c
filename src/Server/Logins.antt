-- ===== src/Server/Logins.antt =====
-- internal/server/handlers_auth.go and handlers_viewer.go: the routes of the logins and logouts. The text of
-- an error is an argument, and so is what an exchange of a code with Twitch gives (internal/oauth).
pub mod Laws
pub mod Owners
pub mod Viewers
mod Tests
pub mod Sound
use media_share.Prelude.{
  ℕ, Bool, true, false, not, ◌||◌, Option, none, some, [], ◌∷◌, ◌++◌, Text, codes, is_empty,
  not_empty, if◌then◌else◌,
}
use media_share.Random.{Rng}
use media_share.Strings.{trim_space}
use media_share.Strings.Query.{query_escape, path_escape}
use media_share.Store.Db.{Streamer, Viewer, Error, Result, ok, err, World}
use media_share.Config
use media_share.Oauth.{Answer, right, wrong, Client, authorize_url}
use media_share.Auth.{
  Kind, StateInfo, TwitchUser, Cookie, Fresh, authorize, consume_state, login, login_viewer,
  dev_login, dev_login_viewer,
}
use media_share.Auth.Middleware.{Request, logout, logout_viewer}
use media_share.Server.{Site}

-- An error with its status, or a redirection with the cookie that is set.
pub data Landing : Type 0 where
  refused : ℕ → Landing
  redirected : Text → Option Cookie → Landing

-- What the handlers read besides the request and the site.
pub record Inputs : Type 0 where
  pub config : Config.Config
  pub oauth : Client
  pub state_rng : Rng
  pub fresh : Fresh
  pub exchange : Text → Option TwitchUser
  pub text_of : Error → Text

-- The user of an exchange, without the text of its error.
abbrev pub user_of : Answer TwitchUser → Option TwitchUser
user_of (right u) = some u
user_of (wrong e) = none

unfoldable pub redirect_login_error : Text → Landing
redirect_login_error msg = redirected (codes "/login?error=" ++ query_escape msg) none

unfoldable pub submit_return_path : Text → Text
submit_return_path token =
    if is_empty token then codes "/submit" else codes "/s/" ++ path_escape token

-- `AuthorizeURL` and `ViewerAuthorizeURL`, with the redirection to the consent URL.
authorized : Inputs → Kind → Text → Site → Landing × Site
authorized i kind return_to s =
    let (state, states) = authorize i.state_rng i.fresh.now kind return_to s.states in
    (redirected (authorize_url i.oauth state []) none, record s { states = states })

unfoldable pub handle_auth_start : Inputs → Site → Landing × Site
unfolding authorized
handle_auth_start i s =
    if Config.oauth_enabled i.config then authorized i Kind.owner_login [] s else (refused 412, s)

unfoldable pub handle_viewer_auth_start : Inputs → Text → Site → Landing × Site
unfolding authorized
handle_viewer_auth_start i token s =
    if Config.oauth_enabled i.config
    then authorized i Kind.viewer_login (trim_space token) s
    else (refused 412, s)

-- The query of the callback.
pub record Query : Type 0 where
  pub error : Text
  pub error_description : Text
  pub code : Text
  pub state : Text

viewer_landing : Inputs → Text → Result (Viewer × Cookie) → Landing
unfolding redirect_login_error submit_return_path
viewer_landing i return_to (ok (v, cookie)) =
    redirected (submit_return_path return_to) (some cookie)
viewer_landing i return_to (err e) = redirect_login_error (i.text_of e)

owner_landing : Inputs → Result (Streamer × Cookie) → Landing
unfolding redirect_login_error
owner_landing i (ok (st, cookie)) = redirected (codes "/admin") (some cookie)
owner_landing i (err e) = redirect_login_error (i.text_of e)

viewer_callback : Inputs → Text → Text → World → Landing × World
unfolding viewer_landing
viewer_callback i code return_to w =
    let (r, w') = login_viewer i.fresh (i.exchange code) w in (viewer_landing i return_to r, w')

owner_callback : Inputs → Text → World → Landing × World
unfolding owner_landing
owner_callback i code w = let (r, w') = login i.fresh (i.exchange code) w in (owner_landing i r, w')

by_kind : Inputs → Text → Kind → Text → World → Landing × World
unfolding viewer_callback owner_callback
by_kind i code Kind.viewer_login return_to w = viewer_callback i code return_to w
by_kind i code _ return_to w = owner_callback i code w

called_back : Inputs → Text → Option StateInfo → World → Landing × World
unfolding by_kind redirect_login_error
called_back i code none w = (redirect_login_error (codes "Invalid or expired login state."), w)
called_back i code (some info) w = by_kind i code info.kind info.return_to w

unfoldable pub handle_auth_callback : Inputs → Query → Site → Landing × Site
unfolding called_back redirect_login_error
handle_auth_callback i q s =
    if not_empty q.error
    then (redirect_login_error q.error_description, s)
    else if is_empty q.code || is_empty q.state
    then (redirect_login_error (codes "Missing code or state."), s)
    else (let (info, states) = consume_state i.fresh.now q.state s.states in
        let (landing, w) = called_back i q.code info s.world in
        (landing, record s { world = w; states = states }))

cleared : Text → Result Cookie → Landing
cleared path (ok c) = redirected path (some c)
cleared path (err e) = redirected path none

unfoldable pub handle_logout : Bool → Request → Site → Landing × Site
unfolding cleared
handle_logout secure r s =
    let (c, w) = logout secure r s.world in (cleared (codes "/login") c, record s { world = w })

-- `token` is the form value `s`.
unfoldable pub handle_viewer_logout : Bool → Request → Text → Site → Landing × Site
unfolding cleared submit_return_path
handle_viewer_logout secure r token s =
    let (c, w) = logout_viewer secure r s.world in
    (cleared (submit_return_path (trim_space token)) c, record s { world = w })

unfoldable pub handle_dev_login : Inputs → Site → Landing × Site
unfolding owner_landing
handle_dev_login i s =
    if not i.config.dev_login
    then (refused 404, s)
    else (let (r, w) = dev_login i.fresh s.world in (owner_landing i r, record s { world = w }))

dev_landing : Text → Result (Viewer × Cookie) → Landing
unfolding submit_return_path
dev_landing token (ok (v, cookie)) =
    redirected (submit_return_path (trim_space token)) (some cookie)
dev_landing token (err e) = refused 500

unfoldable pub handle_viewer_dev_login : Inputs → Text → Site → Landing × Site
unfolding dev_landing
handle_viewer_dev_login i token s =
    if not i.config.dev_login
    then (refused 404, s)
    else (let (r, w) = dev_login_viewer i.fresh s.world in
        (dev_landing token r, record s { world = w }))
