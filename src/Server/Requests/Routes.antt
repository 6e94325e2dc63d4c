-- ===== src/Server/Requests/Routes.antt =====
-- What the routes that steer the queue and the session keep.
use media_share.Prelude.{
  ℕ, ◌≡◌, refl, inl, inr, Bool, Option, none, some, Text, same, is_empty, Bool-cases,
}
use media_share.Strings.{trim_space}
use media_share.Store.Db.{Streamer, Viewer, Result, ok, err}
use media_share.Store.People.{get_streamer_by_player_key}
use media_share.Tenant.Links.{Control, IsFresh, control, resolve_session_iff}
use media_share.Tenant.Queues.{requeued-IsIndexed, requeued-QueuesValid}
use media_share.Queue
use media_share.Queue.Ops.{Op, step}
use media_share.Queue.Invariant.{IsValid, step-IsValid}
use media_share.Auth.Middleware.{Request}
use media_share.Server.{Config, Site}
use media_share.Server.Submit.{Form, Inputs, handle_submit}
use media_share.Server.Submit.Laws.{handle_submit-IsSettled, handle_submit-Requeues}
use media_share.Server.Handlers.{
  by_id, steered, ended_for, handle_bypass, handle_player_ended, handle_session_status,
  streamer_route,
}
use media_share.Server.Sound.{
  IsSound, control-IsSound, framed-IsSound, player-Frames, streamer_route-IsSound,
  with_queue-IsSound,
}

pub status-IsSound : (id : Text) (s : Site) → IsSound s → IsSound (handle_session_status id s).1
unfolding handle_session_status control
status-IsSound id s h = control-IsSound (Control.open_tenant id) s tt h

as_step-IsValid :
    {A : Type 0} (act : Queue.Manager → Queue.Outcome A) (op : Op)
    → ((m : Queue.Manager) → (act m).manager ≡ (step op m).manager)
    → (m : Queue.Manager) → IsValid m
    → IsValid (act m).manager
as_step-IsValid act op is_op m v = rw (is_op m) (step-IsValid op m v)

by_id-IsSound :
    (act : Text → Queue.Manager → Queue.Outcome Bool) (op : Text → Op)
    → ((id : Text) (m : Queue.Manager) → (act id m).manager ≡ (step (op id) m).manager)
    → (body : Option Text) (streamer_id : Text) (s : Site) → IsSound s
    → IsSound (by_id act streamer_id body s).1
unfolding by_id
by_id-IsSound act op is_op none streamer_id s h = h
by_id-IsSound act op is_op (some id) streamer_id s h = elim (Bool-cases (is_empty id)) [
  | inl nothing ↦ rw nothing h
  | inr given ↦
      rw given
        (with_queue-IsSound streamer_id (act id) s (as_step-IsValid (act id) (op id) (is_op id)) h)
]

steered-IsSound :
    (act : Queue.Manager → Queue.Outcome (Unit {0})) (op : Op)
    → ((m : Queue.Manager) → (act m).manager ≡ (step op m).manager)
    → (streamer_id : Text) (s : Site) → IsSound s
    → IsSound (steered act streamer_id s).1
unfolding steered
steered-IsSound act op is_op streamer_id s h =
    with_queue-IsSound streamer_id act s (as_step-IsValid act op is_op) h

-- The item of an accepted submission goes to the queue of the tenant of the token.
pub submitted-IsSound :
    (c : Config) (i : Inputs) (v : Viewer) (f : Option Form) (s : Site)
    → IsSound s
    → IsSound (handle_submit c i (some v) f s).1
submitted-IsSound c i v none s h = unfold handle_submit in h
submitted-IsSound c i v (some f) s h =
    let settled = handle_submit-IsSettled c i (some v) (some f) s h.settled in
    elim (handle_submit-Requeues c i (some v) f s h.settled) [
      | inl same ↦ record {
        settled = settled;
        indexed = rw same h.indexed;
        queues = rw same h.queues;
      }
      | inr (t, fresh, now, it, at, changed) ↦
          let (there, active, token, full) =
            (resolve_session_iff s.registry (trim_space f.session) t h.indexed).0 at in
          let q = (Queue.submit fresh now it t.queue).manager in
          let valid : IsValid q =
            as_step-IsValid (Queue.submit fresh now it) (Op.submit fresh now it)
              (λ m. unfold step in refl) t.queue (h.queues t.streamer_id t there) in
          record {
            settled = settled;
            indexed = rw changed (requeued-IsIndexed t.streamer_id t q s.registry there h.indexed);
            queues = rw changed (requeued-QueuesValid t.streamer_id t q s.registry valid h.queues);
          }
    ]

ended-IsSound :
    (id : Text) (who : Result Streamer) (s : Site) → IsSound s → IsSound (ended_for id who s).1
unfolding ended_for
ended-IsSound id (ok st) s h =
    steered-IsSound (Queue.ended id) (Op.ended id) (λ m. unfold step in refl) st.id s h
ended-IsSound id (err e) s h = h

pub player_ended-IsSound :
    (body : Option (Text × Text)) (s : Site) → IsSound s → IsSound (handle_player_ended body s).1
unfolding handle_player_ended
player_ended-IsSound none s h = h
player_ended-IsSound (some (key, id)) s h =
    let (st, w) = get_streamer_by_player_key key s.world in
    ended-IsSound id st (record s { world = w }) (framed-IsSound s w (player-Frames key s.world) h)

module _ (now : ℕ) (req : Request) where
  pub by_id_route-IsSound :
      (act : Text → Queue.Manager → Queue.Outcome Bool) (op : Text → Op)
      → ((id : Text) (m : Queue.Manager) → (act id m).manager ≡ (step (op id) m).manager)
      → (body : Option Text) (s : Site) → IsSound s
      → IsSound (streamer_route now req (λ id. by_id act id body) s).1
  by_id_route-IsSound act op is_op body s h =
      streamer_route-IsSound now req (λ id. by_id act id body) s
        (λ id w. by_id-IsSound act op is_op body id (record s { world = w })) h

  pub steered_route-IsSound :
      (act : Queue.Manager → Queue.Outcome (Unit {0})) (op : Op)
      → ((m : Queue.Manager) → (act m).manager ≡ (step op m).manager)
      → (s : Site) → IsSound s
      → IsSound (streamer_route now req (steered act) s).1
  steered_route-IsSound act op is_op s h =
      streamer_route-IsSound now req (steered act) s
        (λ id w. steered-IsSound act op is_op id (record s { world = w })) h

  pub bypass_route-IsSound :
      (body : Option Bool) (s : Site)
      → IsSound s
      → IsSound (streamer_route now req (λ id. handle_bypass id body) s).1
  unfolding handle_bypass
  bypass_route-IsSound none s h =
      streamer_route-IsSound now req (λ id. handle_bypass id none) s (λ id w here. here) h
  bypass_route-IsSound (some b) s h =
      steered_route-IsSound (Queue.set_bypass b) (Op.set_bypass b) (λ m. unfold step in refl) s h

  -- The handlers of the session act on the registry of the request's start.
  pub session_route-IsSound :
      (c : Text → Control) (s : Site)
      → ((id : Text) → IsFresh (c id) s.registry)
      → IsSound s
      → IsSound
          (streamer_route now req
            (λ id t. handle_session_status id (record t { registry = control (c id) t.registry }))
            s).1
  session_route-IsSound c s fresh h =
      streamer_route-IsSound now req
        (λ id t. handle_session_status id (record t { registry = control (c id) t.registry })) s
        (λ id w here.
          status-IsSound id (record s { world = w; registry = control (c id) s.registry })
            (control-IsSound (c id) (record s { world = w }) (fresh id) here))
        h
