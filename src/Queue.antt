-- ===== src/Queue.antt =====
-- internal/queue/queue.go: the media-share queue and its state machine. A `*Item` that the manager
-- holds is reachable from no other place (its callers get copies), so an item is a value; an item
-- that leaves the queue is kept in `retired`, with the status that the code writes to it last.
-- Each method runs under one lock, so it is a function from the state to its outcome.
pub mod Find
pub mod Ops
pub mod Invariant
pub mod Conservation
pub mod Playlist
pub mod Publish
mod Tests
use media_share.Prelude.{
  ℕ, zero, suc, ◌+◌, Bool, true, false, ◌||◌, Option, none, some, List, [], ◌∷◌, ◌++◌, map, Text,
  same, is_empty, ◌==◌, if◌then◌else◌,
}
use media_share.Prelude.Int.{ℤ}

pub data ItemType : Type 0 where
  youtube upload : ItemType

pub data Status : Type 0 where
  pending approved playing done rejected skipped : Status

-- A time is a number of seconds; 0 is Go's zero time.
pub record Item : Type 0 where
  pub id : Text
  pub kind : ItemType
  pub title : Text
  pub submitter_name : Text
  pub status : Status
  pub submitted_at : ℕ
  pub youtube_id : Text
  pub start_seconds : ℤ
  pub media_url : Text
  pub duration_seconds : ℕ

pub record Snapshot : Type 0 where
  pub pending : List Item
  pub queue : List Item
  pub now_playing : Option Item
  pub paused : Bool
  pub bypass : Bool

-- The callback is known by the room that it broadcasts to: `none` is the callback that does nothing,
-- `some room` the one that the registry installs.
pub record Manager : Type 0 where
  pub pending : List Item
  pub queue : List Item
  pub now_playing : Option Item
  pub paused : Bool
  pub bypass : Bool
  pub broadcast : Option Text

-- One call of the callback.
pub record Call : Type 0 where
  pub callback : Option Text
  pub snapshot : Snapshot

-- What a method leaves behind: the state, its result, the items that left the queue, the calls.
pub record Outcome (A : Type 0) : Type 0 where
  pub manager : Manager
  pub result : A
  pub retired : List Item
  pub calls : List Call

unfoldable pub new_manager : Option Text → Manager
new_manager broadcast = record {
  pending = [];
  queue = [];
  now_playing = none;
  paused = false;
  bypass = false;
  broadcast = broadcast;
}

unfoldable pub set_broadcast : Manager → Option Text → Manager
set_broadcast m fn = record m { broadcast = fn }

-- The copies of the items have the items' values.
unfoldable pub snapshot : Manager → Snapshot
snapshot m = record {
  pending = m.pending;
  queue = m.queue;
  now_playing = m.now_playing;
  paused = m.paused;
  bypass = m.bypass;
}

unfoldable pub now_playing_item : Manager → Option Item
now_playing_item m = m.now_playing

-- `it.Status = s`
unfoldable pub with_status : Status → Item → Item
with_status s it = record it { status = s }

abbrev pub retire : Status → Option Item → List Item
retire s none = []
retire s (some it) = record it { status = s } ∷ []

-- The end of each method that changed something: a snapshot for the callback.
unfoldable pub emit : {A : Type 0} → Manager → A → List Item → Outcome A
unfolding snapshot
emit m result retired = record {
  manager = m;
  result = result;
  retired = retired;
  calls = record { callback = m.broadcast; snapshot = snapshot m } ∷ [];
}

abbrev pub unchanged : {A : Type 0} → Manager → A → Outcome A
unchanged m result = record { manager = m; result = result; retired = []; calls = [] }

-- Promotes the front of the queue when nothing is playing.
start_with : Option Item → List Item → Manager → Manager
start_with (some it) queue m = m
start_with none [] m = m
start_with none (next ∷ rest) m = record m {
  queue = rest;
  now_playing = some (record next { status = Status.playing });
}

unfoldable pub start_if_idle : Manager → Manager
unfolding start_with
start_if_idle m = start_with m.now_playing m.queue m

find_from : ℕ → List Item → Text → Option (Item × ℕ)
find_from i [] id = none
find_from i (it ∷ items) id = if same it.id id then some (it, i) else find_from (i + 1) items id

-- The item with its index; `none` is the code's (nil, -1).
unfoldable pub find_by_id : List Item → Text → Option (Item × ℕ)
unfolding find_from
find_by_id items id = find_from 0 items id

-- `append(items[:idx:idx], items[idx+1:]...)`, called only with an index in range
unfoldable pub remove_at : List Item → ℕ → List Item
remove_at [] idx = []
remove_at (it ∷ items) zero = items
remove_at (it ∷ items) (suc idx) = it ∷ remove_at items idx

-- `fresh` is the id of `uuid.NewString()`, and `now` the time, where the item has none.
unfoldable pub stamped : Text → ℕ → Item → Item
stamped fresh now it = record it {
  id = if is_empty it.id then fresh else it.id;
  submitted_at = if it.submitted_at == 0 then now else it.submitted_at;
}

enqueue : Item → Manager → Manager
enqueue it m =
    if m.bypass
    then record m { queue = m.queue ++ record it { status = Status.approved } ∷ [] }
    else record m { pending = m.pending ++ record it { status = Status.pending } ∷ [] }

-- The copy that `Submit` returns, taken after a promotion may have changed the status.
created_status : Manager → Status
created_status m =
    if m.bypass
    then elim m.now_playing [
      | none ↦ elim m.queue [ [] ↦ Status.playing | _ ∷ _ ↦ Status.approved ]
      | some _ ↦ Status.approved
    ]
    else Status.pending

unfoldable pub submit : Text → ℕ → Item → Manager → Outcome Item
unfolding stamped enqueue created_status start_if_idle emit
submit fresh now it m =
    emit (start_if_idle (enqueue (stamped fresh now it) m))
      (record (stamped fresh now it) { status = created_status m }) []

approve_found : Option (Item × ℕ) → Manager → Outcome Bool
approve_found none m = unchanged m false
approve_found (some (it, idx)) m =
    emit
      (start_if_idle (record m {
        pending = remove_at m.pending idx;
        queue = m.queue ++ record it { status = Status.approved } ∷ [];
      }))
      true []

unfoldable pub approve : Text → Manager → Outcome Bool
unfolding find_by_id approve_found start_if_idle emit
approve id m = approve_found (find_by_id m.pending id) m

reject_found : Option (Item × ℕ) → Manager → Outcome Bool
reject_found none m = unchanged m false
reject_found (some (it, idx)) m =
    emit (record m { pending = remove_at m.pending idx }) true
      (record it { status = Status.rejected } ∷ [])

unfoldable pub reject : Text → Manager → Outcome Bool
unfolding find_by_id reject_found emit
reject id m = reject_found (find_by_id m.pending id) m

remove_found : Option (Item × ℕ) → Manager → Outcome Bool
remove_found none m = unchanged m false
remove_found (some (it, idx)) m =
    emit (record m { queue = remove_at m.queue idx }) true
      (record it { status = Status.skipped } ∷ [])

unfoldable pub remove : Text → Manager → Outcome Bool
unfolding find_by_id remove_found emit
remove id m = remove_found (find_by_id m.queue id) m

-- `id == "" || nowPlaying.ID == id`
is_current : Text → Option Item → Bool
is_current id none = false
is_current id (some it) = is_empty id || same it.id id

unfoldable pub ended : Text → Manager → Outcome (Unit {0})
unfolding is_current start_if_idle emit
ended id m =
    if is_current id m.now_playing
    then emit (start_if_idle (record m { now_playing = none; paused = false })) tt
        (retire Status.done m.now_playing)
    else emit (start_if_idle (record m { paused = false })) tt []

unfoldable pub skip : Manager → Outcome (Unit {0})
unfolding start_if_idle emit
skip m =
    emit (start_if_idle (record m { now_playing = none; paused = false })) tt
      (retire Status.skipped m.now_playing)

unfoldable pub set_paused : Bool → Manager → Outcome (Unit {0})
unfolding emit
set_paused p m = emit (record m { paused = p }) tt []

unfoldable pub pause : Manager → Outcome (Unit {0})
unfolding set_paused
pause m = set_paused true m

unfoldable pub resume : Manager → Outcome (Unit {0})
unfolding set_paused
resume m = set_paused false m

unfoldable pub clear : Bool → Manager → Outcome (Unit {0})
unfolding emit with_status
clear all m =
    if all
    then emit (record m { pending = []; queue = []; now_playing = none; paused = false }) tt
        (map (with_status Status.skipped) m.queue
          ++ (map (with_status Status.rejected) m.pending ++ retire Status.skipped m.now_playing))
    else emit (record m { queue = [] }) tt (map (with_status Status.skipped) m.queue)

unfoldable pub set_bypass : Bool → Manager → Outcome (Unit {0})
unfolding emit
set_bypass enabled m = emit (record m { bypass = enabled }) tt []
