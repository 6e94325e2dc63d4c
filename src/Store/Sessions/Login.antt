-- ===== src/Store/Sessions/Login.antt =====
-- From the creation of a login session to its expiry.
use media_share.Prelude.{
  ℕ, ◌+◌, ◌≤◌, ◌<◌, ◌≡◌, refl, false, none, some, Text, same_refl, is_empty, arith, exists,
  delete_where, select-append, select-delete_where,
}
use media_share.Random.{Rng, rand_token}
use media_share.Store.Db.{Role, AuthSession, Streamer, Db, Result, ok, err, not_found, World, calm}
use media_share.Store.People.{select_streamer}
use media_share.Store.Sessions.{
  auth_session_at, insert_auth_session, create_auth_session, delete_auth_row, select_auth_session,
  get_valid_auth_session,
}

abbrev session_row : Text → Text → Role → ℕ → ℕ → AuthSession
session_row id streamer_id role now ttl = record {
  id = id;
  streamer_id = streamer_id;
  role = role;
  created_at = now;
  expires_at = now + ttl;
}

insert_auth_session_lem :
    (s : AuthSession) (d d' : Db)
    → insert_auth_session s d ≡ ok (tt, d')
    → (select_auth_session s.id d' ≡ some s) × (d'.streamers ≡ d.streamers)
unfolding insert_auth_session select_auth_session exists
insert_auth_session_lem s d d' h =
    ground (arith, select-append (auth_session_at s.id) d.auth_sessions s, same_refl s.id)

abbrev Creates : AuthSession → Result Text → Db → Db → Type 0
Creates s (ok id) d d' = (id ≡ s.id) × (insert_auth_session s d ≡ ok (tt, d'))
Creates s (err e) d d' = d' ≡ d

create_auth_session_inv :
    (rng : Rng) (now : ℕ) (streamer_id : Text) (role : Role) (ttl : ℕ) (w : World)
    → Creates
        (session_row (rand_token 32 rng) streamer_id role now ttl)
        (create_auth_session rng now streamer_id role ttl w).0
        w.db
        (create_auth_session rng now streamer_id role ttl w).1.db
unfolding create_auth_session
create_auth_session_inv rng now streamer_id role ttl w = ground arith

is_empty-rand_token : (rng : Rng) → is_empty (rand_token 32 rng) ≡ false
unfolding rand_token
is_empty-rand_token rng = refl

check_live :
    (now : ℕ) (id : Text) (s : AuthSession) (st : Streamer) (d : Db)
    → is_empty id ≡ false
    → select_auth_session id d ≡ some s
    → select_streamer s.streamer_id d ≡ some st
    → now < s.expires_at
    → (get_valid_auth_session now id (calm d)).0 ≡ ok (st, s.role)
unfolding get_valid_auth_session
check_live now id s st d n at owner_row live = rw (n, at) (ground arith)

-- A session that was created for a registered streamer is accepted, with its role and the streamer, at
-- every time before its end, as long as no call of the database fails.
pub create-get_valid :
    (rng : Rng) (now now' : ℕ) (streamer_id id : Text) (role : Role) (ttl : ℕ) (st : Streamer)
    (w : World)
    → (create_auth_session rng now streamer_id role ttl w).0 ≡ ok id
    → select_streamer streamer_id w.db ≡ some st
    → now' < now + ttl
    → (get_valid_auth_session now' id
        (calm (create_auth_session rng now streamer_id role ttl w).1.db)).0
      ≡ ok (st, role)
create-get_valid rng now now' streamer_id id role ttl st w h owner_row live =
    let d' = (create_auth_session rng now streamer_id role ttl w).1.db in
    let s = session_row (rand_token 32 rng) streamer_id role now ttl in
    let (is_id, made) = rw h at (create_auth_session_inv rng now streamer_id role ttl w) in
    let (at, streamers) = insert_auth_session_lem s w.db d' made in
    rw is_id (
      check_live now' s.id s st d' (is_empty-rand_token rng) at
        (unfold select_streamer in rw streamers owner_row) live)

-- From its end on a session is refused, and the check deletes it, as long as no call of the database
-- fails.
expired_is_deleted :
    (now : ℕ) (id : Text) (s : AuthSession) (d : Db)
    → select_auth_session id d ≡ some s
    → s.expires_at ≤ now
    → is_empty id ≡ false
    → ((get_valid_auth_session now id (calm d)).0 ≡ err not_found)
      × (select_auth_session id (get_valid_auth_session now id (calm d)).1.db ≡ none)
unfolding get_valid_auth_session delete_auth_row
expired_is_deleted now id s d at over n =
    rw (n, at) (ground (arith, deleted_row id d), ground (arith, deleted_row id d))
  where
    deleted_row :
        (i : Text) (e : Db)
        → select_auth_session i
            (record e { auth_sessions = delete_where (auth_session_at i) e.auth_sessions })
          ≡ none
    deleted_row i e =
        unfold select_auth_session in select-delete_where (auth_session_at i) e.auth_sessions
