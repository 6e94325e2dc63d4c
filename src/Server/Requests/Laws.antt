-- ===== src/Server/Requests/Laws.antt =====
-- What the routes keep.
use media_share.Prelude.{refl, true, false, some, List, [], ◌∷◌, codes, same}
use media_share.Tenant.Links.{Control, control}
use media_share.Queue
use media_share.Queue.Ops.{Op, step}
use media_share.Server.{Site}
use media_share.Server.Submit.{handle_submit}
use media_share.Server.EventSub.Laws.{handle_event_sub-IsSettled}
use media_share.Server.Handlers.{
  on_world, handle_moderators_link, handle_moderators_revoke, handle_moderators_status,
  handle_approve, handle_reject, handle_remove, handle_skip, handle_pause, handle_resume,
  handle_clear, handle_session_status, handle_session_start, handle_session_regenerate,
  handle_session_stop,
}
use media_share.Server.Sound.{
  on_world-IsSound, owner_route-IsSound, viewer_route-IsSound, IsSound, framed-IsSound,
  streamer_route-IsSound,
}
use media_share.Server.Viewers.{handle_mod_claim, handle_viewer_me}
use media_share.Server.Viewers.Laws.{
  dev_credit-IsSound, mod_claim-IsSettled, moderators_link-IsSettled, moderators_revoke-IsSettled,
  moderators_status-IsSettled, viewer_me-IsSound,
}
use media_share.Server.Requests.Routes.{
  status-IsSound, submitted-IsSound, player_ended-IsSound, by_id_route-IsSound,
  steered_route-IsSound, bypass_route-IsSound, session_route-IsSound,
}
use media_share.Server.Pages.{handle_admin_page, handle_state}
use media_share.Server.Pages.Laws.{
  index-Frames, mod_claim_page-Frames, page-Frames, player_page-Frames, state-IsSound,
  submit_page-Frames, me-Frames, ws-IsSound,
}
use media_share.Server.Logins.Sound.{
  auth_callback-IsSound, auth_start-IsSound, dev_login-IsSound, logout-IsSound,
  viewer_auth_start-IsSound, viewer_dev_login-IsSound, viewer_logout-IsSound,
}
use media_share.Server.Requests.{AllMint, Call, Mints, serve, serve_all, submit_route}

-- Each request keeps the site sound, if a token that it mints is not in use.
serve-IsSound : (c : Call) (s : Site) → Mints c s.registry → IsSound s → IsSound (serve c s)
unfolding serve
serve-IsSound (Call.submit now req c i f) s m h =
    unfold submit_route in
    viewer_route-IsSound now req (λ v t. handle_submit c i (some v) f t) s
      (λ v t. submitted-IsSound c i v f t) h
serve-IsSound (Call.viewer_me now req token) s m h =
    viewer_route-IsSound now req (λ v t. handle_viewer_me v token t) s
      (λ v t. viewer_me-IsSound token v t) h
serve-IsSound (Call.dev_credit dev_login rng now req g) s m h =
    dev_credit-IsSound dev_login rng now req g s h
serve-IsSound (Call.mod_claim f token) s m h =
    on_world-IsSound (handle_mod_claim f token) s (mod_claim-IsSettled f token s.world h.settled) h
serve-IsSound (Call.moderators_status now req) s m h =
    owner_route-IsSound now req (λ id. on_world (handle_moderators_status id)) s
      (λ id t k.
        on_world-IsSound (handle_moderators_status id) t
          (moderators_status-IsSettled id t.world k.settled) k)
      h
serve-IsSound (Call.moderators_revoke now req) s m h =
    owner_route-IsSound now req (λ id. on_world (handle_moderators_revoke id)) s
      (λ id t k.
        on_world-IsSound (handle_moderators_revoke id) t
          (moderators_revoke-IsSettled id t.world k.settled) k)
      h
serve-IsSound (Call.moderators_link now req rng) s m h =
    owner_route-IsSound now req (λ id. on_world (handle_moderators_link rng now id)) s
      (λ id t k.
        on_world-IsSound (handle_moderators_link rng now id) t
          (moderators_link-IsSettled rng now id t.world k.settled) k)
      h
serve-IsSound (Call.event_sub c msg) s m h = record {
  settled = handle_event_sub-IsSettled c msg s.world h.settled;
  indexed = h.indexed;
  queues = h.queues;
}
serve-IsSound (Call.player_ended body) s m h = player_ended-IsSound body s h
serve-IsSound (Call.approve now req body) s m h =
    unfold handle_approve in
    by_id_route-IsSound now req Queue.approve Op.approve (λ id q. unfold step in refl) body s h
serve-IsSound (Call.reject now req body) s m h =
    unfold handle_reject in
    by_id_route-IsSound now req Queue.reject Op.reject (λ id q. unfold step in refl) body s h
serve-IsSound (Call.remove now req body) s m h =
    unfold handle_remove in
    by_id_route-IsSound now req Queue.remove Op.remove (λ id q. unfold step in refl) body s h
serve-IsSound (Call.skip now req) s m h =
    unfold handle_skip in
    steered_route-IsSound now req Queue.skip Op.skip (λ q. unfold step in refl) s h
serve-IsSound (Call.pause now req) s m h =
    unfold handle_pause in
    steered_route-IsSound now req Queue.pause (Op.set_paused true)
      (λ q. unfold step Queue.pause in refl) s h
serve-IsSound (Call.resume now req) s m h =
    unfold handle_resume in
    steered_route-IsSound now req Queue.resume (Op.set_paused false)
      (λ q. unfold step Queue.resume in refl) s h
serve-IsSound (Call.clear now req scope) s m h =
    unfold handle_clear in
    steered_route-IsSound now req (Queue.clear (same scope (codes "all")))
      (Op.clear (same scope (codes "all"))) (λ q. unfold step in refl) s h
serve-IsSound (Call.bypass now req body) s m h = bypass_route-IsSound now req body s h
serve-IsSound (Call.session_status now req) s m h =
    streamer_route-IsSound now req handle_session_status s
      (λ id w. status-IsSound id (record s { world = w })) h
serve-IsSound (Call.session_stop now req) s m h =
    unfold handle_session_stop control in session_route-IsSound now req Control.stop s (λ id. tt) h
serve-IsSound (Call.session_start now req rng) s m h =
    unfold handle_session_start control in
    session_route-IsSound now req (λ id. Control.start id rng now) s (λ id. m) h
serve-IsSound (Call.session_regenerate now req rng) s m h =
    unfold handle_session_regenerate control in
    session_route-IsSound now req (λ id. Control.regenerate id rng now) s (λ id. m) h
serve-IsSound (Call.auth_start i) s m h = auth_start-IsSound i s h
serve-IsSound (Call.auth_callback i q) s m h = auth_callback-IsSound i q s h
serve-IsSound (Call.dev_login i) s m h = dev_login-IsSound i s h
serve-IsSound (Call.logout secure req) s m h = logout-IsSound secure req s h
serve-IsSound (Call.viewer_auth_start i token) s m h = viewer_auth_start-IsSound i token s h
serve-IsSound (Call.viewer_dev_login i token) s m h = viewer_dev_login-IsSound i token s h
serve-IsSound (Call.viewer_logout secure req token) s m h =
    viewer_logout-IsSound secure req token s h
serve-IsSound (Call.index_page c now req path error) s m h =
    framed-IsSound s _ (index-Frames c now req path error s.world) h
serve-IsSound (Call.submit_page c now req path query) s m h =
    framed-IsSound s _ (submit_page-Frames c now req path query s.world) h
serve-IsSound (Call.admin_page c now req) s m h =
    framed-IsSound s _ (page-Frames now (handle_admin_page c) req s.world) h
serve-IsSound (Call.player_page key) s m h = framed-IsSound s _ (player_page-Frames key s.world) h
serve-IsSound (Call.mod_claim_page token) s m h =
    framed-IsSound s _ (mod_claim_page-Frames token s.world) h
serve-IsSound (Call.queue_state now req) s m h =
    streamer_route-IsSound now req handle_state s
      (λ id w. state-IsSound id (record s { world = w })) h
serve-IsSound (Call.web_socket upgraded now req role key) s m h =
    ws-IsSound upgraded now req role key s h
serve-IsSound (Call.me c now req) s m h = framed-IsSound s _ (me-Frames c now req s.world) h

-- Whatever requests come in, in whatever order, by whomever, and whichever calls of the database fail,
-- as long as no token that is minted is in use: a site that is sound stays so. Then every balance is
-- at least zero and is the sum of its ledger, the invite links are exactly those of the open sessions,
-- and the items of every queue stand where their status says.
pub serve_all-IsSound :
    (cs : List Call) (s : Site) → AllMint cs s → IsSound s → IsSound (serve_all cs s)
unfolding serve_all
serve_all-IsSound [] s m h = h
serve_all-IsSound (c ∷ cs) s m h = serve_all-IsSound cs (serve c s) m.1 (serve-IsSound c s m.0 h)
