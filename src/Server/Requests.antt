-- ===== src/Server/Requests.antt =====
-- internal/server/server.go: the routes that can change the database or the tenants, as the steps of one
-- machine.
pub mod Routes
pub mod Laws
use media_share.Prelude.{ℕ, ◌≡◌, Bool, Option, none, some, List, [], ◌∷◌, Text, lookup}
use media_share.Random.{Rng, new_token}
use media_share.Tenant.{Registry}
use media_share.Auth.{Fresh}
use media_share.Auth.Middleware.{Guarded, Request}
use media_share.Config
use media_share.Server.{Site, Reply}
use media_share.Server
use media_share.Server.Submit.{Form, Inputs, handle_submit}
use media_share.Server.EventSub.{Message, Setting, handle_event_sub}
use media_share.Server.Viewers.{Grant, handle_dev_credit, handle_mod_claim, handle_viewer_me}
use media_share.Server.Pages.{
  handle_admin_page, handle_index, me_route, handle_mod_claim_page, handle_player_page,
  handle_state, handle_submit_page, serve_ws, require_streamer_page,
}
use media_share.Server.Logins
use media_share.Server.Logins.{
  handle_auth_start, handle_auth_callback, handle_dev_login, handle_logout,
  handle_viewer_auth_start, handle_viewer_dev_login, handle_viewer_logout,
}
use media_share.Server.Handlers.{
  owner_route, viewer_route, on_world, handle_moderators_link, handle_moderators_revoke,
  handle_moderators_status, handle_approve, handle_reject, handle_remove, handle_skip, handle_pause,
  handle_resume, handle_clear, handle_bypass, handle_player_ended, handle_session_status,
  handle_session_start, handle_session_regenerate, handle_session_stop, streamer_route,
}

-- POST /api/submit, behind RequireViewer.
unfoldable pub submit_route :
    ℕ → Request → Server.Config → Inputs → Option Form → Site → Guarded Reply × Site
submit_route now req c i f s = viewer_route now req (λ v t. handle_submit c i (some v) f t) s

-- A request, with the time, the body and the random bytes that its handler reads.
pub data Call : Type 0 where
  submit : ℕ → Request → Server.Config → Inputs → Option Form → Call
  event_sub : Setting → Option Message → Call
  player_ended : Option (Text × Text) → Call
  approve reject remove : ℕ → Request → Option Text → Call
  skip pause resume : ℕ → Request → Call
  clear : ℕ → Request → Text → Call
  bypass : ℕ → Request → Option Bool → Call
  session_status session_stop : ℕ → Request → Call
  session_start session_regenerate : ℕ → Request → Rng → Call
  viewer_me : ℕ → Request → Text → Call
  dev_credit : Bool → Rng → ℕ → Request → Grant → Call
  mod_claim : Fresh → Text → Call
  moderators_status moderators_revoke : ℕ → Request → Call
  moderators_link : ℕ → Request → Rng → Call
  auth_start dev_login : Logins.Inputs → Call
  auth_callback : Logins.Inputs → Logins.Query → Call
  viewer_auth_start viewer_dev_login : Logins.Inputs → Text → Call
  logout : Bool → Request → Call
  viewer_logout : Bool → Request → Text → Call
  index_page submit_page : Config.Config → ℕ → Request → Text → Text → Call
  admin_page : Config.Config → ℕ → Request → Call
  player_page mod_claim_page : Text → Call
  queue_state : ℕ → Request → Call
  web_socket : Bool → ℕ → Request → Text → Text → Call
  me : Config.Config → ℕ → Request → Call

unfoldable pub serve : Call → Site → Site
serve (submit now req c i f) s = (submit_route now req c i f s).1
serve (event_sub c m) s = record s { world = (handle_event_sub c m s.world).1 }
serve (player_ended body) s = (handle_player_ended body s).1
serve (approve now req body) s = (streamer_route now req (λ id. handle_approve id body) s).1
serve (reject now req body) s = (streamer_route now req (λ id. handle_reject id body) s).1
serve (remove now req body) s = (streamer_route now req (λ id. handle_remove id body) s).1
serve (skip now req) s = (streamer_route now req handle_skip s).1
serve (pause now req) s = (streamer_route now req handle_pause s).1
serve (resume now req) s = (streamer_route now req handle_resume s).1
serve (clear now req scope) s = (streamer_route now req (λ id. handle_clear id scope) s).1
serve (bypass now req body) s = (streamer_route now req (λ id. handle_bypass id body) s).1
serve (session_status now req) s = (streamer_route now req handle_session_status s).1
serve (session_stop now req) s = (streamer_route now req handle_session_stop s).1
serve (session_start now req rng) s = (streamer_route now req (handle_session_start rng now) s).1
serve (session_regenerate now req rng) s =
    (streamer_route now req (handle_session_regenerate rng now) s).1
serve (viewer_me now req token) s = (viewer_route now req (λ v t. handle_viewer_me v token t) s).1
serve (dev_credit enabled rng now req g) s = (handle_dev_credit enabled rng now req g s).1
serve (mod_claim f token) s = (on_world (handle_mod_claim f token) s).1
serve (moderators_status now req) s =
    (owner_route now req (λ id. on_world (handle_moderators_status id)) s).1
serve (moderators_revoke now req) s =
    (owner_route now req (λ id. on_world (handle_moderators_revoke id)) s).1
serve (moderators_link now req rng) s =
    (owner_route now req (λ id. on_world (handle_moderators_link rng now id)) s).1
serve (auth_start i) s = (handle_auth_start i s).1
serve (auth_callback i q) s = (handle_auth_callback i q s).1
serve (dev_login i) s = (handle_dev_login i s).1
serve (logout secure req) s = (handle_logout secure req s).1
serve (viewer_auth_start i token) s = (handle_viewer_auth_start i token s).1
serve (viewer_dev_login i token) s = (handle_viewer_dev_login i token s).1
serve (viewer_logout secure req token) s = (handle_viewer_logout secure req token s).1
serve (index_page c now req path error) s = (on_world (handle_index c now req path error) s).1
serve (submit_page c now req path query) s =
    (on_world (handle_submit_page c now req path query) s).1
serve (admin_page c now req) s =
    (on_world (require_streamer_page now (handle_admin_page c) req) s).1
serve (player_page key) s = (on_world (handle_player_page key) s).1
serve (mod_claim_page token) s = (on_world (handle_mod_claim_page token) s).1
serve (queue_state now req) s = (streamer_route now req handle_state s).1
serve (web_socket upgraded now req role key) s = (serve_ws upgraded now req role key s).1
serve (me c now req) s = (on_world (me_route c now req) s).1

-- A minted token is not in use yet.
abbrev pub Mints : Call → Registry → Type 0
Mints (session_start now req rng) r = lookup (new_token rng) r.by_token ≡ none
Mints (session_regenerate now req rng) r = lookup (new_token rng) r.by_token ≡ none
Mints _ r = Unit

unfoldable pub serve_all : List Call → Site → Site
serve_all [] s = s
serve_all (c ∷ cs) s = serve_all cs (serve c s)

abbrev pub AllMint : List Call → Site → Type 0
AllMint [] s = Unit
AllMint (c ∷ cs) s = Mints c s.registry × AllMint cs (serve c s)
