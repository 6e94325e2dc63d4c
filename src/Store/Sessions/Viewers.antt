-- ===== src/Store/Sessions/Viewers.antt =====
-- A viewer's session from its creation to its end.
use media_share.Prelude.{
  ℕ, ◌+◌, ◌<◌, ◌≡◌, refl, some, Text, same_refl, is_empty, false, arith, exists, select-append,
}
use media_share.Random.{Rng, rand_token}
use media_share.Store.Db.{Viewer, ViewerSession, Db, Result, ok, err, World, calm}
use media_share.Store.People.{select_viewer}
use media_share.Store.Sessions.{
  viewer_session_at, insert_viewer_session, create_viewer_session, select_viewer_session,
  get_valid_viewer_session,
}

abbrev session_row : Text → Text → ℕ → ℕ → ViewerSession
session_row id viewer_id now ttl = record {
  id = id;
  viewer_id = viewer_id;
  created_at = now;
  expires_at = now + ttl;
}

inserted :
    (s : ViewerSession) (d d' : Db)
    → insert_viewer_session s d ≡ ok (tt, d')
    → (select_viewer_session s.id d' ≡ some s) × (d'.viewers ≡ d.viewers)
unfolding insert_viewer_session select_viewer_session exists
inserted s d d' h =
    ground (arith, select-append (viewer_session_at s.id) d.viewer_sessions s, same_refl s.id)

abbrev Creates : ViewerSession → Result Text → Db → Db → Type 0
Creates s (ok id) d d' = (id ≡ s.id) × (insert_viewer_session s d ≡ ok (tt, d'))
Creates s (err e) d d' = d' ≡ d

create_viewer_session_inv :
    (rng : Rng) (now : ℕ) (viewer_id : Text) (ttl : ℕ) (w : World)
    → Creates
        (session_row (rand_token 32 rng) viewer_id now ttl)
        (create_viewer_session rng now viewer_id ttl w).0
        w.db
        (create_viewer_session rng now viewer_id ttl w).1.db
unfolding create_viewer_session
create_viewer_session_inv rng now viewer_id ttl w = ground arith

is_empty-rand_token : (rng : Rng) → is_empty (rand_token 32 rng) ≡ false
unfolding rand_token
is_empty-rand_token rng = refl

check_live :
    (now : ℕ) (id : Text) (s : ViewerSession) (v : Viewer) (d : Db)
    → is_empty id ≡ false
    → select_viewer_session id d ≡ some s
    → select_viewer s.viewer_id d ≡ some v
    → now < s.expires_at
    → (get_valid_viewer_session now id (calm d)).0 ≡ ok v
unfolding get_valid_viewer_session
check_live now id s v d n at row live = rw (n, at) (ground arith)

-- A session that was created for a registered viewer is accepted for this viewer at every time before its
-- end, as long as no call of the database fails.
pub create_viewer-get_valid :
    (rng : Rng) (now later : ℕ) (viewer_id id : Text) (ttl : ℕ) (v : Viewer) (w : World)
    → (create_viewer_session rng now viewer_id ttl w).0 ≡ ok id
    → select_viewer viewer_id w.db ≡ some v
    → later < now + ttl
    → (get_valid_viewer_session later id
        (calm (create_viewer_session rng now viewer_id ttl w).1.db)).0
      ≡ ok v
create_viewer-get_valid rng now later viewer_id id ttl v w h row live =
    let d' = (create_viewer_session rng now viewer_id ttl w).1.db in
    let s = session_row (rand_token 32 rng) viewer_id now ttl in
    let (is_id, made) = rw h at (create_viewer_session_inv rng now viewer_id ttl w) in
    let (at, viewers) = inserted s w.db d' made in
    rw is_id (
      check_live later s.id s v d' (is_empty-rand_token rng) at
        (unfold select_viewer in rw viewers row) live)
