-- ===== src/Server/Pages.antt =====
-- internal/server/render.go, with requireStreamerPage and handleWS of server.go and the landing page of a
-- moderator link of handlers_auth.go: what the pages show, and whom the WebSocket joins to which room.
-- The templates are left to html/template: a page is the data that it is given.
pub mod Laws
use media_share.Prelude.{
  ℕ, Bool, true, false, not, Option, none, some, List, [], ◌∷◌, ◌++◌, Text, codes, same, is_empty,
  not_empty, ◌==◌, if◌then◌else◌,
}
use media_share.Prelude.Int.{ℤ}
use media_share.Strings.{to_upper, join, trim_space}
use media_share.Store.Db.{Role, owner, moderator, Streamer, Viewer, Result, ok, err, World}
use media_share.Store.People.{get_streamer, get_streamer_by_player_key}
use media_share.Store.Sessions.{resolve_moderator_link}
use media_share.Config
use media_share.Tenant.{Message, Registry, get, initial_messages}
use media_share.Tenant
use media_share.Queue
use media_share.Auth.Middleware.{
  Guarded, Handler, Request, authenticate, authenticate_viewer, passed, require_streamer,
}
use media_share.Server.{Site}

pub data Page : Type 0 where
  login_page : Bool → Bool → Text → Page
  admin_page : Text → Bool → Text → Page
  submit_page : Text → Text → ℤ → Text → Bool → Bool → Bool → ℤ → Text → Bool → Page
  player_page : Text → Text → Page
  mod_claim_page : Text → Text → Page

-- A status, a redirection, or the page with its data.
pub data View : Type 0 where
  status : ℕ → View
  goes_to : Text → View
  shows : Page → View

is_owner : Role → Bool
is_owner owner = true
is_owner moderator = false

unfoldable pub handle_login_page : Config.Config → Text → View
handle_login_page c error = shows (login_page (Config.oauth_enabled c) c.dev_login error)

index_for : Config.Config → Text → Result (Streamer × Role) → View
unfolding handle_login_page
index_for c error (ok who) = goes_to (codes "/admin")
index_for c error (err e) = handle_login_page c error

-- `path` is that of the request, `error` its query's.
unfoldable pub handle_index : Config.Config → ℕ → Request → Text → Text → World → View × World
unfolding index_for
handle_index c now r path error w =
    if not (same path (codes "/"))
    then (status 404, w)
    else (let (who, w') = authenticate now r w in (index_for c error who, w'))

unfoldable pub player_url : Config.Config → Streamer → Text
player_url c st = Config.base_url c ++ (codes "/p/" ++ st.player_key)

unfoldable pub handle_admin_page : Config.Config → Streamer → Role → View
unfolding is_owner
handle_admin_page c st role = shows (admin_page st.display_name (is_owner role) (player_url c st))

page_for : (Streamer → Role → View) → Result (Streamer × Role) → View
page_for next (ok (st, role)) = next st role
page_for next (err e) = goes_to (codes "/login")

unfoldable pub require_streamer_page : ℕ → (Streamer → Role → View) → Request → World → View × World
unfolding page_for
require_streamer_page now next r w = let (who, w') = authenticate now r w in (page_for next who, w')

-- strings.ReplaceAll of the dot by nothing
undotted : Text → Text
undotted [] = []
undotted (c ∷ s) = let rest = undotted s in if c == b'.' then rest else c ∷ rest

viewer_name : Result Viewer → Text
viewer_name (ok v) = v.display_name
viewer_name (err e) = []

-- `path_token` is that of the path, `query_token` that of the query.
unfoldable pub handle_submit_page : Config.Config → ℕ → Request → Text → Text → World → View × World
unfolding undotted viewer_name
handle_submit_page c now r path_token query_token w =
    let (viewer, w') = authenticate_viewer now r w in
    let name = viewer_name viewer in
    let token = if is_empty path_token then trim_space query_token else path_token in
    (
      shows (
          submit_page (join c.allowed_ext (codes ","))
            (to_upper (undotted (join c.allowed_ext (codes " ")))) c.max_upload_mb token
            (Config.oauth_enabled c) c.dev_login c.credits_enabled c.credits_per_second name
            (not_empty name)),
      w',
    )

player_for : Text → Result Streamer → View
player_for key (ok st) = shows (player_page key st.display_name)
player_for key (err e) = status 404

unfoldable pub handle_player_page : Text → World → View × World
unfolding player_for
handle_player_page key w =
    let (st, w') = get_streamer_by_player_key key w in (player_for key st, w')

claim_view : Text → Result Streamer → View
claim_view token (ok st) = shows (mod_claim_page st.display_name token)
claim_view token (err e) = status 404

claim_for : Text → Result Text → World → View × World
unfolding claim_view
claim_for token (err e) w = (status 404, w)
claim_for token (ok id) w = let (st, w') = get_streamer id w in (claim_view token st, w')

unfoldable pub handle_mod_claim_page : Text → World → View × World
unfolding claim_for
handle_mod_claim_page token w =
    let (id, w') = resolve_moderator_link token w in claim_for token id w'

-- The queue's snapshot, behind RequireStreamer.
unfoldable pub handle_state : Text → Site → Queue.Snapshot × Site
handle_state streamer_id s =
    let (t, r) = get streamer_id s.registry in (Queue.snapshot t.queue, record s { registry = r })

pub record Me : Type 0 where
  pub login : Text
  pub display_name : Text
  pub role : Role
  pub player_url : Text

unfoldable pub handle_me : Config.Config → Streamer → Role → Me
handle_me c st role = record {
  login = st.login;
  display_name = st.display_name;
  role = role;
  player_url = player_url c st;
}

answered : Config.Config → Streamer → Role → Handler Me
unfolding handle_me
answered c st role w = (passed (handle_me c st role), w)

-- GET /api/admin/me, behind RequireStreamer.
unfoldable pub me_route : Config.Config → ℕ → Request → World → Guarded Me × World
unfolding answered
me_route c now r w = require_streamer now (answered c) r w

unfoldable pub session_link : Config.Config → Text → Text
session_link c token = if is_empty token then [] else Config.base_url c ++ (codes "/s/" ++ token)

-- A status, or the room that the connection joins, as an admin or as a player.
pub data Joined : Type 0 where
  rejected : ℕ → Joined
  as_admin as_player : Text → Joined

admin_room : Result (Streamer × Role) → Joined
admin_room (ok (st, role)) = as_admin st.id
admin_room (err e) = rejected 401

player_room : Result Streamer → Joined
player_room (ok st) = as_player st.id
player_room (err e) = rejected 404

unfoldable pub handle_ws : ℕ → Request → Text → Text → World → Joined × World
unfolding admin_room player_room
handle_ws now r role key w =
    if same role (codes "admin")
    then (let (who, w') = authenticate now r w in (admin_room who, w'))
    else if same role (codes "player")
    then (let (st, w') = get_streamer_by_player_key key w in (player_room st, w'))
    else (rejected 400, w)

-- What the hub sends to a connection first, if the upgrade to a WebSocket works: its OnConnect is the
-- registry's InitialMessages (main.go), which opens the tenant of the room.
greeting : Bool → Joined → Registry → List Message × Registry
unfolding initial_messages
greeting false joined r = ([], r)
greeting true (rejected code) r = ([], r)
greeting true (as_admin room) r = initial_messages room Tenant.Role.admin r
greeting true (as_player room) r = initial_messages room Tenant.Role.player r

-- GET /ws with the hub's ServeWS.
unfoldable pub serve_ws : Bool → ℕ → Request → Text → Text → Site → (Joined × List Message) × Site
unfolding handle_ws greeting
serve_ws upgraded now r role key s =
    let (joined, w) = handle_ws now r role key s.world in
    let (messages, reg) = greeting upgraded joined s.registry in
    ((joined, messages), record s { world = w; registry = reg })
