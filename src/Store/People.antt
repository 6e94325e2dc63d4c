-- ===== src/Store/People.antt =====
-- The accounts of internal/store/store.go: UpsertStreamer, GetStreamer, GetStreamerByPlayerKey,
-- UpsertViewer and GetViewer. `rng` gives the bytes of a new player key, `now` is the time.
pub mod Upsert
pub mod Viewers
pub mod Parts
use media_share.Prelude.{
  ℕ, ◌≡◌, Bool, true, false, ◌||◌, Option, none, some, List, [], ◌∷◌, ◌++◌, Text, same, select,
  update, exists, if◌then◌else◌,
}
use media_share.Random.{Rng, rand_token}
use media_share.Store.Db.{
  Streamer, Viewer, Db, Error, Result, ok, err, not_found, unique_violation, World, Sql, pure,
  raise, attempt, ◌>>=◌, ◌>>◌, exec, query_row,
}

abbrev pub streamer_at : Text → Streamer → Bool
streamer_at id s = same s.id id

abbrev pub viewer_at : Text → Viewer → Bool
viewer_at id v = same v.id id

unfoldable pub select_streamer : Text → Db → Option Streamer
select_streamer id db = select (streamer_at id) db.streamers

unfoldable pub select_streamer_by_key : Text → Db → Option Streamer
select_streamer_by_key key db = select (λ (s : Streamer). same s.player_key key) db.streamers

unfoldable pub select_viewer : Text → Db → Option Viewer
select_viewer id db = select (viewer_at id) db.viewers

unfoldable pub get_streamer : Text → Sql Streamer
unfolding query_row
get_streamer id = query_row (select_streamer id)

unfoldable pub get_streamer_by_player_key : Text → Sql Streamer
unfolding query_row
get_streamer_by_player_key key = query_row (select_streamer_by_key key)

unfoldable pub get_viewer : Text → Sql Viewer
unfolding query_row
get_viewer id = query_row (select_viewer id)

abbrev pub streamer_seen : Text → Text → ℕ → Streamer → Streamer
streamer_seen login display_name now s = record s {
  login = login;
  display_name = display_name;
  last_login_at = now;
}

unfoldable pub update_streamer : Text → Text → Text → ℕ → Db → Result (Unit {0} × Db)
update_streamer id login display_name now db = ok (
  tt,
  record db {
    streamers = update (streamer_at id) (streamer_seen login display_name now) db.streamers;
  },
)

-- The id is the primary key, and the player key is unique.
unfoldable pub insert_streamer : Streamer → Db → Result (Unit {0} × Db)
insert_streamer st db =
    if exists (λ (s : Streamer). same s.id st.id || same s.player_key st.player_key) db.streamers
    then err unique_violation
    else ok (tt, record db { streamers = db.streamers ++ st ∷ [] })

upsert_found : Rng → ℕ → Text → Text → Text → Result Streamer → Sql Streamer
unfolding exec
upsert_found rng now id login display_name (ok existing) = do
  exec (update_streamer id login display_name now)
  pure (streamer_seen login display_name now existing)
upsert_found rng now id login display_name (err not_found) =
    let st : Streamer = record {
      id = id;
      login = login;
      display_name = display_name;
      player_key = rand_token 16 rng;
      created_at = now;
      last_login_at = now;
    } in
    exec (insert_streamer st) >> pure st
upsert_found rng now id login display_name (err e) = raise e

unfoldable pub upsert_streamer : Rng → ℕ → Text → Text → Text → Sql Streamer
unfolding get_streamer upsert_found
upsert_streamer rng now id login display_name = do
  existing ← attempt (get_streamer id)
  upsert_found rng now id login display_name existing

abbrev pub viewer_seen : Text → Text → ℕ → Viewer → Viewer
viewer_seen login display_name now v = record v {
  login = login;
  display_name = display_name;
  last_seen_at = now;
}

unfoldable pub update_viewer : Text → Text → Text → ℕ → Db → Result (Unit {0} × Db)
update_viewer id login display_name now db = ok (
  tt,
  record db { viewers = update (viewer_at id) (viewer_seen login display_name now) db.viewers },
)

unfoldable pub insert_viewer : Viewer → Db → Result (Unit {0} × Db)
insert_viewer v db =
    if exists (viewer_at v.id) db.viewers
    then err unique_violation
    else ok (tt, record db { viewers = db.viewers ++ v ∷ [] })

upsert_viewer_found : ℕ → Text → Text → Text → Result Viewer → Sql Viewer
unfolding exec
upsert_viewer_found now id login display_name (ok existing) = do
  exec (update_viewer id login display_name now)
  pure (viewer_seen login display_name now existing)
upsert_viewer_found now id login display_name (err not_found) =
    let v : Viewer = record {
      id = id;
      login = login;
      display_name = display_name;
      created_at = now;
      last_seen_at = now;
    } in
    exec (insert_viewer v) >> pure v
upsert_viewer_found now id login display_name (err e) = raise e

unfoldable pub upsert_viewer : ℕ → Text → Text → Text → Sql Viewer
unfolding get_viewer upsert_viewer_found
upsert_viewer now id login display_name = do
  existing ← attempt (get_viewer id)
  upsert_viewer_found now id login display_name existing
