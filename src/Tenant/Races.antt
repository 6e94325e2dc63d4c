-- ===== src/Tenant/Races.antt =====
-- internal/tenant/registry.go: the calls of StartSession, RegenerateSession and StopSession as they
-- interleave. Each takes the locks of the session and of the registry one after another: it reads the old
-- token, changes the session, and brings the index up to date. Between them other goroutines go on.
pub mod Coherent
pub mod Changes
pub mod Laws
mod Tests
use media_share.Prelude.{
  ℕ, List, [], ◌∷◌, Text, Option, none, some, Assoc, insert, lookup, ◌==◌, if◌then◌else◌, ◌≡◌,
}
use media_share.Random.{Rng, new_token}
use media_share.Session
use media_share.Tenant.{Tenant, Registry, get, set_session, reindex, new_registry}

pub data Change : Type 0 where
  start regenerate stop : Change

-- What the change does to the session, and the token that it returns.
unfoldable pub changed : Change → Rng → ℕ → Session.Manager → Session.Manager
changed start rng now m = (Session.start rng now m).manager
changed regenerate rng now m = (Session.regenerate rng now m).manager
changed stop rng now m = (Session.stop m).manager

unfoldable pub token_of : Change → Rng → Text
token_of start rng = new_token rng
token_of regenerate rng = new_token rng
token_of stop rng = []

-- Where a goroutine stands: before it reads the old token, before it changes the session, and before it
-- brings the index up to date.
pub data Thread : Type 0 where
  idle : Thread
  called : Text → Change → Thread
  holding : Text → Change → Text → Thread
  indexing : Text → Text → Text → Thread

-- `minted` notes for whom a token was minted; the code keeps no such record. A stop draws no bytes in the
-- code; those of its step are noted all the same.
pub record Race : Type 0 where
  pub registry : Registry
  pub threads : ℕ → Thread
  pub minted : Assoc Text

abbrev pub at_rest : Race
at_rest = record { registry = new_registry; threads = λ n. idle; minted = [] }

pub data Event : Type 0 where
  open_tenant : Text → Event
  call : ℕ → Text → Change → Event
  read_token : ℕ → Event
  change : ℕ → Rng → ℕ → Event
  index : ℕ → Event

abbrev pub with_thread : ℕ → Thread → (ℕ → Thread) → ℕ → Thread
with_thread n th threads m = if m == n then th else threads m

abbrev pub opened : Text → Race → Race
opened id s = record s { registry = (get id s.registry).1 }

abbrev pub set_thread : ℕ → Thread → Race → Race
set_thread n th s = record s { threads = with_thread n th s.threads }

call_at : ℕ → Text → Change → Thread → Race → Race
call_at n id c idle s = set_thread n (called id c) (opened id s)
call_at n id c _ s = s

read_at : ℕ → Thread → Race → Race
read_at n (called id c) s =
    set_thread n (holding id c (get id s.registry).0.session.token) (opened id s)
read_at n _ s = s

-- The session is changed, and the minted token noted.
unfoldable pub with_session : Text → Change → Rng → ℕ → Tenant → Race → Race
with_session id c rng now t s = record s {
  registry = set_session id t (changed c rng now t.session) s.registry;
  minted = insert (new_token rng) id s.minted;
}

change_at : ℕ → Rng → ℕ → Thread → Race → Race
unfolding with_session
change_at n rng now (holding id c old) s =
    set_thread n (indexing id old (token_of c rng))
      (with_session id c rng now (get id s.registry).0 (opened id s))
change_at n rng now _ s = s

abbrev pub indexed : Text → Text → Text → Race → Race
indexed id old new s = record s { registry = reindex id old new s.registry }

index_at : ℕ → Thread → Race → Race
index_at n (indexing id old new) s = set_thread n idle (indexed id old new s)
index_at n _ s = s

-- A step that does not fit the place of the goroutine does nothing.
unfoldable pub step : Event → Race → Race
unfolding call_at read_at change_at index_at
step (open_tenant id) s = opened id s
step (call n id c) s = call_at n id c (s.threads n) s
step (read_token n) s = read_at n (s.threads n) s
step (change n rng now) s = change_at n rng now (s.threads n) s
step (index n) s = index_at n (s.threads n) s

unfoldable pub run : List Event → Race → Race
run [] s = s
run (e ∷ es) s = run es (step e s)

-- No token is minted twice.
abbrev pub IsFresh : Event → Race → Type 0
IsFresh (change n rng now) s = lookup (new_token rng) s.minted ≡ none
IsFresh _ s = Unit

abbrev pub AllFresh : List Event → Race → Type 0
AllFresh [] s = Unit
AllFresh (e ∷ es) s = IsFresh e s × AllFresh es (step e s)
