-- ===== src/Server/Handlers.antt =====
-- internal/server: the handlers that steer the queue, the session and the moderators, and the player's
-- report. `streamer_id` is the streamer in the request's context; a body is `none` where it does not
-- decode. The result is the status, or the body of the reply.
use media_share.Prelude.{
  ℕ, Bool, true, false, Option, none, some, [], ◌++◌, Text, codes, same, is_empty, insert,
  if◌then◌else◌,
}
use media_share.Random.{Rng}
use media_share.Strings.{trim_space}
use media_share.Store.Db.{Streamer, Viewer, Result, ok, err, not_found, World}
use media_share.Store.People.{get_streamer_by_player_key}
use media_share.Store.Sessions.{moderator_link, regenerate_moderator_link, revoke_moderator_access}
use media_share.Session
use media_share.Tenant.{get, resolve_session, start_session, regenerate_session, stop_session}
use media_share.Queue
use media_share.Auth.Middleware.{
  Guarded, blocked, passed, Request, require_owner, require_streamer, require_viewer,
}
use media_share.Server.{Site}

-- A method of the queue of `s.reg.Get(id)`, written through the tenant's pointer.
unfoldable pub with_queue :
    {A : Type 0} → Text → (Queue.Manager → Queue.Outcome A) → Site → A × Site
with_queue id act s =
    let (t, r) = get id s.registry in
    let o = act t.queue in
    (
      o.result,
      record s {
        registry = record r { tenants = insert id (record t { queue = o.manager }) r.tenants };
        sent = s.sent ++ o.calls;
      },
    )

-- What approve, reject and remove share.
unfoldable pub by_id :
    (Text → Queue.Manager → Queue.Outcome Bool) → Text → Option Text → Site → ℕ × Site
unfolding with_queue
by_id act streamer_id none s = (400, s)
by_id act streamer_id (some id) s =
    if is_empty id
    then (400, s)
    else (let (found, s') = with_queue streamer_id (act id) s in (if found then 200 else 404, s'))

unfoldable pub handle_approve : Text → Option Text → Site → ℕ × Site
unfolding by_id Queue.approve
handle_approve = by_id Queue.approve

unfoldable pub handle_reject : Text → Option Text → Site → ℕ × Site
unfolding by_id Queue.reject
handle_reject = by_id Queue.reject

unfoldable pub handle_remove : Text → Option Text → Site → ℕ × Site
unfolding by_id Queue.remove
handle_remove = by_id Queue.remove

-- What the handlers that always answer 200 share.
unfoldable pub steered : (Queue.Manager → Queue.Outcome (Unit {0})) → Text → Site → ℕ × Site
unfolding with_queue
steered act streamer_id s = (200, (with_queue streamer_id act s).1)

unfoldable pub handle_skip : Text → Site → ℕ × Site
unfolding steered
handle_skip = steered Queue.skip

unfoldable pub handle_pause : Text → Site → ℕ × Site
unfolding steered
handle_pause = steered Queue.pause

unfoldable pub handle_resume : Text → Site → ℕ × Site
unfolding steered
handle_resume = steered Queue.resume

-- `scope` is what the decoder left of it; its error is dropped.
unfoldable pub handle_clear : Text → Text → Site → ℕ × Site
unfolding steered
handle_clear streamer_id scope = steered (Queue.clear (same scope (codes "all"))) streamer_id

unfoldable pub handle_bypass : Text → Option Bool → Site → ℕ × Site
unfolding steered
handle_bypass streamer_id none s = (400, s)
handle_bypass streamer_id (some enabled) s = steered (Queue.set_bypass enabled) streamer_id s

unfoldable pub ended_for : Text → Result Streamer → Site → ℕ × Site
unfolding steered
ended_for id (err e) s = (404, s)
ended_for id (ok st) s = steered (Queue.ended id) st.id s

-- The body is the player's key and the item's id.
unfoldable pub handle_player_ended : Option (Text × Text) → Site → ℕ × Site
unfolding ended_for
handle_player_ended none s = (400, s)
handle_player_ended (some (key, id)) s =
    let (st, w) = get_streamer_by_player_key key s.world in ended_for id st (record s { world = w })

-- The view of the session: none of its fields are sent while it is closed.
pub record SessionView : Type 0 where
  pub active : Bool
  pub started_at : ℕ
  pub token : Text

view_of : Session.Manager → SessionView
view_of m =
    if m.active
    then record { active = true; started_at = m.started_at; token = m.token }
    else record { active = false; started_at = 0; token = [] }

unfoldable pub handle_session_status : Text → Site → SessionView × Site
unfolding view_of
handle_session_status streamer_id s =
    let (t, r) = get streamer_id s.registry in (view_of t.session, record s { registry = r })

unfoldable pub handle_session_start : Rng → ℕ → Text → Site → SessionView × Site
unfolding handle_session_status
handle_session_start rng now streamer_id s =
    handle_session_status streamer_id
      (record s { registry = (start_session streamer_id rng now s.registry).registry })

unfoldable pub handle_session_regenerate : Rng → ℕ → Text → Site → SessionView × Site
unfolding handle_session_status
handle_session_regenerate rng now streamer_id s =
    handle_session_status streamer_id
      (record s { registry = (regenerate_session streamer_id rng now s.registry).registry })

unfoldable pub handle_session_stop : Text → Site → SessionView × Site
unfolding handle_session_status
handle_session_stop streamer_id s =
    handle_session_status streamer_id
      (record s { registry = (stop_session streamer_id s.registry).registry })

unfoldable pub handle_session_check : Text → Site → Bool
handle_session_check token s = elim (resolve_session (trim_space token) s.registry) [
  | none ↦ false
  | some t ↦ true
]

-- The status, and the token of the link where it is 200.
link_reply : Result Text → ℕ × Text
link_reply (ok token) = (200, token)
link_reply (err e) = (500, [])

-- No link is an empty token.
status_reply : Result Text → ℕ × Text
unfolding link_reply
status_reply (err not_found) = (200, [])
status_reply r = link_reply r

unfoldable pub handle_moderators_status : Text → World → (ℕ × Text) × World
unfolding status_reply
handle_moderators_status owner w = let (r, w') = moderator_link owner w in (status_reply r, w')

unfoldable pub handle_moderators_link : Rng → ℕ → Text → World → (ℕ × Text) × World
unfolding link_reply
handle_moderators_link rng now owner w =
    let (r, w') = regenerate_moderator_link rng now owner w in (link_reply r, w')

done_reply : Result (Unit {0}) → ℕ
done_reply (ok _) = 200
done_reply (err e) = 500

unfoldable pub handle_moderators_revoke : Text → World → ℕ × World
unfolding done_reply
handle_moderators_revoke owner w =
    let (r, w') = revoke_moderator_access owner w in (done_reply r, w')

abbrev pub inside :
    {A : Type 0} → Site → (Text → Site → A × Site) → Streamer → World → Guarded (A × Site) × World
inside s act st w = let (a, s') = act st.id (record s { world = w }) in (passed (a, s'), s'.world)

abbrev pub outcome : {A : Type 0} → Site → Guarded (A × Site) × World → Guarded A × Site
outcome s (blocked n, w) = (blocked n, record s { world = w })
outcome s (passed (a, s'), w) = (passed a, s')

-- A route behind RequireStreamer, and one behind RequireOwner.
unfoldable pub streamer_route :
    {A : Type 0} → ℕ → Request → (Text → Site → A × Site) → Site → Guarded A × Site
streamer_route now req act s =
    outcome s (require_streamer now (λ st role. inside s act st) req s.world)

unfoldable pub owner_route :
    {A : Type 0} → ℕ → Request → (Text → Site → A × Site) → Site → Guarded A × Site
owner_route now req act s = outcome s (require_owner now (inside s act) req s.world)

abbrev pub viewing :
    {A : Type 0} → Site → (Viewer → Site → A × Site) → Viewer → World → Guarded (A × Site) × World
viewing s act v w = let (a, s') = act v (record s { world = w }) in (passed (a, s'), s'.world)

-- A route behind RequireViewer.
unfoldable pub viewer_route :
    {A : Type 0} → ℕ → Request → (Viewer → Site → A × Site) → Site → Guarded A × Site
viewer_route now req act s = outcome s (require_viewer now (viewing s act) req s.world)

-- A handler that only uses the store.
abbrev pub on_world : {A : Type 0} → (World → A × World) → Site → A × Site
on_world act s = let (a, w) = act s.world in (a, record s { world = w })
