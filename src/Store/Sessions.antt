-- ===== src/Store/Sessions.antt =====
-- The login sessions and moderator links of internal/store/store.go. `rng` gives the bytes of a new
-- id or token, `now` is the time, and `ttl` a number of seconds.
pub mod Revocation
pub mod Login
pub mod Viewers
mod Tests
use media_share.Prelude.{
  ℕ, ◌+◌, ◌≡◌, Bool, true, false, ◌&&◌, ◌||◌, Option, none, some, List, [], ◌∷◌, ◌++◌, Text, same,
  is_empty, leb, select, update, exists, delete_where, if◌then◌else◌,
}
use media_share.Random.{Rng, rand_token}
use media_share.Store.Db.{
  Role, owner, moderator, AuthSession, ModeratorLink, ViewerSession, Streamer, Viewer, Db, Error,
  Result, ok, err, not_found, unique_violation, foreign_key, World, Sql, pure, raise, attempt,
  ◌>>=◌, ◌>>◌, exec, query_row, begin, commit, deferring_rollback,
}
use media_share.Store.People.{streamer_at, viewer_at, get_streamer, get_viewer}

abbrev pub auth_session_at : Text → AuthSession → Bool
auth_session_at id s = same s.id id

abbrev pub viewer_session_at : Text → ViewerSession → Bool
viewer_session_at id s = same s.id id

unfoldable pub insert_auth_session : AuthSession → Db → Result (Unit {0} × Db)
insert_auth_session s db =
    if exists (auth_session_at s.id) db.auth_sessions
    then err unique_violation
    else if exists (streamer_at s.streamer_id) db.streamers
    then ok (tt, record db { auth_sessions = db.auth_sessions ++ s ∷ [] })
    else err foreign_key

unfoldable pub create_auth_session : Rng → ℕ → Text → Role → ℕ → Sql Text
unfolding exec
create_auth_session rng now streamer_id role ttl =
    let id = rand_token 32 rng in
    exec (
      insert_auth_session (record {
        id = id;
        streamer_id = streamer_id;
        role = role;
        created_at = now;
        expires_at = now + ttl;
      }))
    >> pure id

unfoldable pub delete_auth_row : Text → Db → Result (Unit {0} × Db)
delete_auth_row id db =
    ok (tt, record db { auth_sessions = delete_where (auth_session_at id) db.auth_sessions })

unfoldable pub delete_auth_session : Text → Sql (Unit {0})
unfolding exec
delete_auth_session id = exec (delete_auth_row id)

unfoldable pub select_auth_session : Text → Db → Option AuthSession
select_auth_session id db = select (auth_session_at id) db.auth_sessions

-- An expired session is deleted, and a failure of that is ignored.
check_auth_session : ℕ → Text → AuthSession → Sql (Streamer × Role)
unfolding delete_auth_session get_streamer
check_auth_session now id s =
    if leb s.expires_at now
    then attempt (delete_auth_session id) >> raise not_found
    else do st ← get_streamer s.streamer_id; pure (st, s.role)

unfoldable pub get_valid_auth_session : ℕ → Text → Sql (Streamer × Role)
unfolding query_row check_auth_session
get_valid_auth_session now id =
    if is_empty id
    then raise not_found
    else do s ← query_row (select_auth_session id); check_auth_session now id s

abbrev pub link_of : Text → ModeratorLink → Bool
link_of streamer_id l = same l.streamer_id streamer_id

abbrev pub link_at : Text → ModeratorLink → Bool
link_at token l = same l.token token

abbrev token_in : Option ModeratorLink → Option Text
token_in none = none
token_in (some l) = some l.token

abbrev streamer_in : Option ModeratorLink → Option Text
streamer_in none = none
streamer_in (some l) = some l.streamer_id

unfoldable pub select_link_token : Text → Db → Option Text
select_link_token streamer_id db = token_in (select (link_of streamer_id) db.moderator_links)

unfoldable pub select_link_streamer : Text → Db → Option Text
select_link_streamer token db = streamer_in (select (link_at token) db.moderator_links)

unfoldable pub moderator_link : Text → Sql Text
unfolding query_row
moderator_link streamer_id = query_row (select_link_token streamer_id)

unfoldable pub delete_links : Text → Db → Result (Unit {0} × Db)
delete_links streamer_id db =
    ok (tt, record db { moderator_links = delete_where (link_of streamer_id) db.moderator_links })

-- The token is the primary key, and each streamer has one link.
unfoldable pub insert_link : ModeratorLink → Db → Result (Unit {0} × Db)
insert_link l db =
    if exists (λ (k : ModeratorLink). same k.token l.token || same k.streamer_id l.streamer_id)
      db.moderator_links
    then err unique_violation
    else if exists (streamer_at l.streamer_id) db.streamers
    then ok (tt, record db { moderator_links = db.moderator_links ++ l ∷ [] })
    else err foreign_key

unfoldable pub regenerate_moderator_link : Rng → ℕ → Text → Sql Text
unfolding begin exec commit deferring_rollback
regenerate_moderator_link rng now streamer_id =
    let token = rand_token 24 rng in
    begin
    >> deferring_rollback (
        exec (delete_links streamer_id)
        >> exec
            (insert_link (record { token = token; streamer_id = streamer_id; created_at = now }))
        >> commit
        >> pure token)

unfoldable pub resolve_moderator_link : Text → Sql Text
unfolding query_row
resolve_moderator_link token =
    if is_empty token then raise not_found else query_row (select_link_streamer token)

abbrev is_moderator : Role → Bool
is_moderator owner = false
is_moderator moderator = true

abbrev pub moderates : Text → AuthSession → Bool
moderates streamer_id s = same s.streamer_id streamer_id && is_moderator s.role

unfoldable pub delete_moderators : Text → Db → Result (Unit {0} × Db)
delete_moderators streamer_id db =
    ok (tt, record db { auth_sessions = delete_where (moderates streamer_id) db.auth_sessions })

unfoldable pub revoke_moderator_access : Text → Sql (Unit {0})
unfolding begin exec commit deferring_rollback
revoke_moderator_access streamer_id =
    begin
    >> deferring_rollback
        (exec (delete_links streamer_id) >> exec (delete_moderators streamer_id) >> commit)

unfoldable pub insert_viewer_session : ViewerSession → Db → Result (Unit {0} × Db)
insert_viewer_session s db =
    if exists (viewer_session_at s.id) db.viewer_sessions
    then err unique_violation
    else if exists (viewer_at s.viewer_id) db.viewers
    then ok (tt, record db { viewer_sessions = db.viewer_sessions ++ s ∷ [] })
    else err foreign_key

unfoldable pub create_viewer_session : Rng → ℕ → Text → ℕ → Sql Text
unfolding exec
create_viewer_session rng now viewer_id ttl =
    let id = rand_token 32 rng in
    exec (
      insert_viewer_session
        (record { id = id; viewer_id = viewer_id; created_at = now; expires_at = now + ttl }))
    >> pure id

unfoldable pub delete_viewer_row : Text → Db → Result (Unit {0} × Db)
delete_viewer_row id db =
    ok (tt, record db { viewer_sessions = delete_where (viewer_session_at id) db.viewer_sessions })

unfoldable pub delete_viewer_session : Text → Sql (Unit {0})
unfolding exec
delete_viewer_session id = exec (delete_viewer_row id)

unfoldable pub select_viewer_session : Text → Db → Option ViewerSession
select_viewer_session id db = select (viewer_session_at id) db.viewer_sessions

check_viewer_session : ℕ → Text → ViewerSession → Sql Viewer
unfolding delete_viewer_session get_viewer
check_viewer_session now id s =
    if leb s.expires_at now
    then attempt (delete_viewer_session id) >> raise not_found
    else get_viewer s.viewer_id

unfoldable pub get_valid_viewer_session : ℕ → Text → Sql Viewer
unfolding query_row check_viewer_session
get_valid_viewer_session now id =
    if is_empty id
    then raise not_found
    else do s ← query_row (select_viewer_session id); check_viewer_session now id s
