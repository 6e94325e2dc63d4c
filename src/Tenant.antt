-- ===== src/Tenant.antt =====
-- internal/tenant/registry.go: each streamer's queue and session, and the index from invite tokens
-- to streamers. A `*Tenant` is the streamer id under which the registry keeps it, so the handlers'
-- `Get` and the methods of the tenant that they then call go through the registry.
pub mod Index
pub mod Links
pub mod Races
pub mod Revocation
pub mod Queues
mod Tests
use media_share.Prelude.{
  ℕ, ◌≡◌, refl, Bool, true, false, Option, none, some, List, [], ◌∷◌, ◌++◌, Text, codes, same,
  is_empty, Assoc, lookup, insert, delete, if◌then◌else◌,
}
use media_share.Random.{Rng}
use media_share.Queue
use media_share.Session

pub record Tenant : Type 0 where
  pub streamer_id : Text
  pub queue : Queue.Manager
  pub session : Session.Manager

pub record Registry : Type 0 where
  pub tenants : Assoc Tenant
  pub by_token : Assoc Text

-- A client's role, and the messages of the hub.
pub data Role : Type 0 where
  player admin : Role

pub data Message : Type 0 where
  state : Queue.Snapshot → Message
  session : Session.Status → Message

unfoldable pub new_registry : Registry
new_registry = record { tenants = []; by_token = [] }

-- Both callbacks of a new tenant send to the room of its id.
unfoldable pub new_tenant : Text → Tenant
unfolding Queue.new_manager Session.new
new_tenant id = record {
  streamer_id = id;
  queue = Queue.new_manager (some id);
  session = Session.new (some id);
}

put_tenant : Text → Tenant → Registry → Registry
put_tenant id t r = record r { tenants = insert id t r.tenants }

get_found : Text → Option Tenant → Registry → Tenant × Registry
get_found id (some t) r = (t, r)
get_found id none r = (new_tenant id, put_tenant id (new_tenant id) r)

unfoldable pub get : Text → Registry → Tenant × Registry
unfolding get_found put_tenant
get id r = get_found id (lookup id r.tenants) r

checked : Text → Option Tenant → Option Tenant
checked token none = none
checked token (some t) = if Session.valid token t.session then some t else none

resolved : Text → Option Text → Registry → Option Tenant
resolved token none r = none
resolved token (some id) r = checked token (lookup id r.tenants)

unfoldable pub resolve_session : Text → Registry → Option Tenant
unfolding resolved checked
resolve_session token r =
    if is_empty token then none else resolved token (lookup token r.by_token) r

unfoldable pub initial_messages : Text → Role → Registry → List Message × Registry
unfolding get
initial_messages room role r =
    let (t, r') = get room r in
    (
      elim role [
        | player ↦ state (Queue.snapshot t.queue) ∷ []
        | admin ↦ state (Queue.snapshot t.queue) ∷ session (Session.status t.session) ∷ []
      ],
      r',
    )

unfoldable pub reindex : Text → Text → Text → Registry → Registry
reindex id old fresh r =
    let index = if is_empty old then r.by_token else delete old r.by_token in
    record r { by_token = if is_empty fresh then index else insert fresh id index }

-- The tenant's new session, written through its pointer.
pub set_session : Text → Tenant → Session.Manager → Registry → Registry
unfolding put_tenant
set_session id t s r = put_tenant id (record t { session = s }) r

-- The result, the registry, and what was broadcast.
pub record Outcome (A : Type 0) : Type 0 where
  pub registry : Registry
  pub result : A
  pub notices : List Session.Notice

pub controlled :
    {A : Type 0} → Text → (A → Text) → (Session.Manager → Session.Outcome A) → Registry → Outcome A
unfolding get set_session reindex
controlled id token_of change r =
    let (t, r') = get id r in
    let o = change t.session in
    record {
      registry =
          reindex t.streamer_id t.session.token (token_of o.result) (set_session id t o.manager r');
      result = o.result;
      notices = o.notices;
    }

unfoldable pub start_session : Text → Rng → ℕ → Registry → Outcome Text
unfolding controlled Session.start
start_session id rng now r = controlled id (λ tok. tok) (Session.start rng now) r

unfoldable pub regenerate_session : Text → Rng → ℕ → Registry → Outcome Text
unfolding controlled Session.regenerate
regenerate_session id rng now r = controlled id (λ tok. tok) (Session.regenerate rng now) r

unfoldable pub stop_session : Text → Registry → Outcome (Unit {0})
unfolding controlled Session.stop
stop_session id r = controlled id (λ _. []) Session.stop r
