-- ===== src/Auth/Logins.antt =====
-- What the logins leave.
use media_share.Prelude.{
  ℕ, ◌+◌, ◌<◌, ◌≡◌, refl, sym, ap, ◌∙◌, some, Text, same_iff, same_refl, select-fits,
}
use media_share.Random.{Rng}
use media_share.Store.Db.{Viewer, Streamer, owner, ok, World, calm}
use media_share.Store.Db.Parts.{>>=-eq-ok}
use media_share.Store.People.{select_streamer, streamer_at, upsert_streamer}
use media_share.Store.People.Upsert.{upsert_streamer_lem}
use media_share.Store.Sessions.{create_auth_session, get_valid_auth_session}
use media_share.Store.People.{select_viewer, upsert_viewer}
use media_share.Store.People.Viewers.{upserted_viewer}
use media_share.Store.Sessions.{create_viewer_session, get_valid_viewer_session}
use media_share.Store.Sessions.Viewers.{create_viewer-get_valid}
use media_share.Store.Sessions.Login.{create-get_valid}
use media_share.Auth.{
  TwitchUser, Cookie, Fresh, login, login_viewer, session_ttl, set_cookie, sid, vsid,
}

-- The row of a login is that of its id.
upserted-id :
    (rng : Rng) (now : ℕ) (id login name : Text) (w : World) (st : Streamer)
    → (upsert_streamer rng now id login name w).0 ≡ ok st
    → (st.id ≡ id)
      × (select_streamer st.id (upsert_streamer rng now id login name w).1.db ≡ some st)
unfolding select_streamer
upserted-id rng now id login name w st h =
    let (held, row) = upsert_streamer_lem rng now id login name id w st h in
    let there : select_streamer id (upsert_streamer rng now id login name w).1.db ≡ some st =
      held ∙ rw same_refl refl in
    let same_id : st.id ≡ id = (same_iff st.id id).0 (
      select-fits (streamer_at id) (upsert_streamer rng now id login name w).1.db.streamers st
        there) in
    (
      same_id,
      ap (λ k. select_streamer k (upsert_streamer rng now id login name w).1.db) same_id ∙ there,
    )

pub login-accepted :
    (f : Fresh) (u : TwitchUser) (w : World) (st : Streamer) (cookie : Cookie) (later : ℕ)
    → (login f (some u) w).0 ≡ ok (st, cookie)
    → later < f.now + session_ttl
    → (st.id ≡ u.id)
      × ((get_valid_auth_session later cookie.value (calm (login f (some u) w).1.db)).0
          ≡ ok (st, owner))
unfolding login
login-accepted f u w st cookie later h live =
    let up = upsert_streamer f.key_rng f.now u.id u.login u.display_name in
    let (row, made, rest, at) = >>=-eq-ok up _ w (st, cookie) h in
    let (id, created, out, at') =
      >>=-eq-ok (create_auth_session f.session_rng f.now row.id owner session_ttl) _ (up w).1
        (st, cookie) rest in
    let (same_id, there) = upserted-id f.key_rng f.now u.id u.login u.display_name w row made in
    let accepted =
      create-get_valid f.session_rng f.now later row.id id owner session_ttl row (up w).1 created
        there live in
    let is_row : row ≡ st = cc out in
    let is_cookie : set_cookie f.secure sid id ≡ cookie = cc out in
    let named : id ≡ cookie.value = unfold set_cookie in ap (λ (c : Cookie). c.value) is_cookie in
    let behind : (login f (some u) w).1
        ≡ (create_auth_session f.session_rng f.now row.id owner session_ttl (up w).1).1 =
      at ∙ at' in
    (ap (λ (x : Streamer). x.id) (sym is_row) ∙ same_id, rw (← is_row, ← named, behind) accepted)

pub login_viewer-accepted :
    (f : Fresh) (u : TwitchUser) (w : World) (v : Viewer) (cookie : Cookie) (later : ℕ)
    → (login_viewer f (some u) w).0 ≡ ok (v, cookie)
    → later < f.now + session_ttl
    → (v.id ≡ u.id)
      × ((get_valid_viewer_session later cookie.value (calm (login_viewer f (some u) w).1.db)).0
          ≡ ok v)
unfolding login_viewer
login_viewer-accepted f u w v cookie later h live =
    let up = upsert_viewer f.now u.id u.login u.display_name in
    let (row, made, rest, at) = >>=-eq-ok up _ w (v, cookie) h in
    let create = create_viewer_session f.session_rng f.now row.id session_ttl in
    let (id, created, out, at') = >>=-eq-ok create _ (up w).1 (v, cookie) rest in
    let (same_id, there) = upserted_viewer f.now u.id u.login u.display_name w row made in
    let accepted =
      create_viewer-get_valid f.session_rng f.now later row.id id session_ttl row (up w).1 created
        (ap (λ k. select_viewer k (up w).1.db) same_id ∙ there) live in
    let is_row : row ≡ v = cc out in
    let is_cookie : set_cookie f.secure vsid id ≡ cookie = cc out in
    let named : id ≡ cookie.value = unfold set_cookie in ap (λ (c : Cookie). c.value) is_cookie in
    let behind : (login_viewer f (some u) w).1 ≡ (create (up w).1).1 = at ∙ at' in
    (ap (λ (x : Viewer). x.id) (sym is_row) ∙ same_id, rw (← is_row, ← named, behind) accepted)
