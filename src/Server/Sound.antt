-- ===== src/Server/Sound.antt =====
-- The handlers together: what holds of the whole site between two requests.
use media_share.Prelude.{ℕ, ◌∙◌, inl, inr, Text, arith, Bool-cases}
use media_share.Store.Db.{World, Streamer, Viewer, Role, owner, moderator, Result, ok, err}
use media_share.Store.People.{get_streamer_by_player_key}
use media_share.Store.Credits.Audit.{same_credits-IsAudited}
use media_share.Store.Credits.Accounts.{IsSettled}
use media_share.Tenant.{get}
use media_share.Tenant.Index.{IsIndexed, get-IsIndexed, lookup-get}
use media_share.Tenant.Links.{Control, control, control-IsIndexed, IsFresh}
use media_share.Tenant.Queues.{
  QueuesValid, control-QueuesValid, requeued-IsIndexed, requeued-QueuesValid,
}
use media_share.Queue
use media_share.Queue.Invariant.{IsValid}
use media_share.Auth.Middleware.{
  Request, authenticate, authenticate_viewer, require_streamer, streamer_gate, require_owner,
  owner_gate, require_viewer, viewer_gate, same_site,
}
use media_share.Auth.Middleware.Frames.{Frames, authenticate-Frames, authenticate_viewer-Frames}
use media_share.Server.{Site}
use media_share.Server.Handlers.{
  with_queue, streamer_route, owner_route, viewer_route, inside, viewing, on_world, outcome,
}

-- The accounts are right, the invite links are those of the sessions, and every queue is in order.
pub record IsSound (s : Site) : Type 0 where
  pub settled : IsSettled s.world
  pub indexed : IsIndexed s.registry
  pub queues : QueuesValid s.registry

pub player-Frames : (key : Text) (w : World) → Frames w (get_streamer_by_player_key key w).1
unfolding get_streamer_by_player_key
player-Frames key w = (ground arith, ground arith, ground arith)

pub framed-IsSettled : (w w' : World) → Frames w w' → IsSettled w → IsSettled w'
framed-IsSettled w w' (balances, ledger, transaction) h = record {
  audited = same_credits-IsAudited w.db w'.db ledger balances h.audited;
  idle = transaction ∙ h.idle;
}

pub framed-IsSound :
    (s : Site) (w : World) → Frames s.world w → IsSound s → IsSound (record s { world = w })
framed-IsSound s w f h = record {
  settled = framed-IsSettled s.world w f h.settled;
  indexed = h.indexed;
  queues = h.queues;
}

-- A method of a queue that keeps queues in order keeps the site sound.
pub with_queue-IsSound :
    {A : Type 0} (id : Text) (act : Queue.Manager → Queue.Outcome A) (s : Site)
    → ((m : Queue.Manager) → IsValid m → IsValid (act m).manager)
    → IsSound s
    → IsSound (with_queue id act s).1
unfolding with_queue control
with_queue-IsSound id act s keeps h =
    let t = (get id s.registry).0 in
    let r = (get id s.registry).1 in
    let at = lookup-get id s.registry in
    let queues : QueuesValid r = control-QueuesValid (Control.open_tenant id) s.registry h.queues in
    record {
      settled = h.settled;
      indexed =
          requeued-IsIndexed id t (act t.queue).manager r at
            (get-IsIndexed id s.registry h.indexed);
      queues =
          requeued-QueuesValid id t (act t.queue).manager r (keeps t.queue (queues id t at)) queues;
    }

pub control-IsSound :
    (c : Control) (s : Site)
    → IsFresh c s.registry
    → IsSound s
    → IsSound (record s { registry = control c s.registry })
control-IsSound c s fresh h = record {
  settled = h.settled;
  indexed = control-IsIndexed c s.registry fresh h.indexed;
  queues = control-QueuesValid c s.registry h.queues;
}

gated-IsSound :
    {A : Type 0} (s : Site) (act : Text → Site → A × Site) (who : Result (Streamer × Role))
    (w : World)
    → IsSound (record s { world = w })
    → ((id : Text) → IsSound (act id (record s { world = w })).1)
    → IsSound (outcome s (streamer_gate (λ st role. inside s act st) who w)).1
unfolding streamer_gate
gated-IsSound s act (ok (st, role)) w h keeps = keeps st.id
gated-IsSound s act (err e) w h keeps = h

-- A route behind RequireStreamer keeps the site sound if its handler does, on every outcome of the
-- authentication.
pub streamer_route-IsSound :
    {A : Type 0} (now : ℕ) (req : Request) (act : Text → Site → A × Site) (s : Site)
    → ((id : Text) (w : World)
        → IsSound (record s { world = w })
        → IsSound (act id (record s { world = w })).1)
    → IsSound s
    → IsSound (streamer_route now req act s).1
unfolding streamer_route require_streamer
streamer_route-IsSound now req act s keeps h = elim (Bool-cases (same_site req)) [
  | inr cross ↦ rw cross h
  | inl own ↦
      let a = authenticate now req s.world in
      let here = framed-IsSound s a.1 (authenticate-Frames now req s.world) h in
      rw own (gated-IsSound s act a.0 a.1 here (λ id. keeps id a.1 here))
]

viewer_gated-IsSound :
    {A : Type 0} (s : Site) (act : Viewer → Site → A × Site) (who : Result Viewer) (w : World)
    → IsSound (record s { world = w })
    → ((v : Viewer) → IsSound (act v (record s { world = w })).1)
    → IsSound (outcome s (viewer_gate (viewing s act) who w)).1
unfolding viewer_gate
viewer_gated-IsSound s act (ok v) w h keeps = keeps v
viewer_gated-IsSound s act (err e) w h keeps = h

-- A route behind RequireViewer keeps the site sound if its handler does.
pub viewer_route-IsSound :
    {A : Type 0} (now : ℕ) (req : Request) (act : Viewer → Site → A × Site) (s : Site)
    → ((v : Viewer) (t : Site) → IsSound t → IsSound (act v t).1)
    → IsSound s
    → IsSound (viewer_route now req act s).1
unfolding viewer_route require_viewer
viewer_route-IsSound now req act s keeps h = elim (Bool-cases (same_site req)) [
  | inr cross ↦ rw cross h
  | inl own ↦
      let a = authenticate_viewer now req s.world in
      let here = framed-IsSound s a.1 (authenticate_viewer-Frames now req s.world) h in
      rw own
        (viewer_gated-IsSound s act a.0 a.1 here (λ v. keeps v (record s { world = a.1 }) here))
]

owner_gated-IsSound :
    {A : Type 0} (s : Site) (act : Text → Site → A × Site) (who : Result (Streamer × Role))
    (w : World)
    → IsSound (record s { world = w })
    → ((id : Text) → IsSound (act id (record s { world = w })).1)
    → IsSound (outcome s (streamer_gate (owner_gate (inside s act)) who w)).1
unfolding streamer_gate owner_gate
owner_gated-IsSound s act (ok (st, owner)) w h keeps = keeps st.id
owner_gated-IsSound s act (ok (st, moderator)) w h keeps = h
owner_gated-IsSound s act (err e) w h keeps = h

-- A route behind RequireOwner keeps the site sound if its handler does.
pub owner_route-IsSound :
    {A : Type 0} (now : ℕ) (req : Request) (act : Text → Site → A × Site) (s : Site)
    → ((id : Text) (t : Site) → IsSound t → IsSound (act id t).1)
    → IsSound s
    → IsSound (owner_route now req act s).1
unfolding owner_route require_owner require_streamer
owner_route-IsSound now req act s keeps h = elim (Bool-cases (same_site req)) [
  | inr cross ↦ rw cross h
  | inl own ↦
      let a = authenticate now req s.world in
      let here = framed-IsSound s a.1 (authenticate-Frames now req s.world) h in
      rw own
        (owner_gated-IsSound s act a.0 a.1 here (λ id. keeps id (record s { world = a.1 }) here))
]

pub on_world-IsSound :
    {A : Type 0} (act : World → A × World) (s : Site)
    → IsSettled (act s.world).1
    → IsSound s
    → IsSound (on_world act s).1
on_world-IsSound act s settled h = record {
  settled = settled;
  indexed = h.indexed;
  queues = h.queues;
}
