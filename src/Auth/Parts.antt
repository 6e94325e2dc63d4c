-- ===== src/Auth/Parts.antt =====
-- What the logins and logouts leave alone: every part of the tables that the rows which they write are not
-- in.
use media_share.Prelude.{
  ℕ, ◌+◌, ◌≡◌, refl, Bool, Option, none, some, List, [], ◌∷◌, ◌++◌, Text, exists, Bool-cases, inl,
  inr,
}
use media_share.Random.{Rng, rand_token}
use media_share.Store.Db.{
  Role, owner, Streamer, Viewer, AuthSession, ViewerSession, Db, exec, Sql, attempt, pure,
}
use media_share.Store.Db.Parts.{Keeps, >>=-Keeps, attempt-Keeps, exec-Keeps}
use media_share.Store.People.{streamer_at, viewer_at, upsert_streamer, upsert_viewer}
use media_share.Store.People.Parts.{upsert_streamer-Keeps, upsert_viewer-Keeps}
use media_share.Store.Sessions.{
  create_auth_session, insert_auth_session, auth_session_at, create_viewer_session,
  insert_viewer_session, viewer_session_at, delete_auth_session, delete_auth_row,
  delete_viewer_session, delete_viewer_row,
}
use media_share.Auth.{
  Fresh, TwitchUser, login, login_user, login_viewer, login_viewer_user, exchanged, dev_login,
  dev_login_viewer, session_ttl,
}
use media_share.Auth.Middleware.{Request, logout, logout_viewer, delete_if}

module _ {X : Type 0} (part : Db → X) where
  exchanged-Keeps : (u : Option TwitchUser) → Keeps part (exchanged u)
  unfolding exchanged
  exchanged-Keeps none w = (refl, refl)
  exchanged-Keeps (some u) w = (refl, refl)

  delete_if-Keeps :
      (drop : Text → Sql (Unit {0})) (id : Option Text)
      → ((t : Text) → Keeps part (drop t))
      → Keeps part (delete_if drop id)
  unfolding delete_if
  delete_if-Keeps drop none keeps = λ w. (refl, refl)
  delete_if-Keeps drop (some id) keeps =
      >>=-Keeps part (attempt (drop id)) (λ _. pure tt) (attempt-Keeps part (drop id) (keeps id))
        (λ _ w. (refl, refl))

  module _
      (apart : (d : Db) (x : List AuthSession)
        → part (record d { auth_sessions = x }) ≡ part d) where
    create_auth-Keeps :
        (rng : Rng) (now : ℕ) (id : Text) (role : Role) (ttl : ℕ)
        → Keeps part (create_auth_session rng now id role ttl)
    unfolding create_auth_session insert_auth_session
    create_auth-Keeps rng now id role ttl =
        let s : AuthSession = record {
          id = rand_token 32 rng;
          streamer_id = id;
          role = role;
          created_at = now;
          expires_at = now + ttl;
        } in
        >>=-Keeps part (exec (insert_auth_session s)) (λ _. pure (rand_token 32 rng))
          (exec-Keeps part (insert_auth_session s) (λ d.
            elim (Bool-cases (exists (auth_session_at s.id) d.auth_sessions)) [
              | inl taken ↦ rw taken tt
              | inr free ↦ elim (Bool-cases (exists (streamer_at s.streamer_id) d.streamers)) [
                | inl there ↦ rw (free, there) (apart d (d.auth_sessions ++ s ∷ []))
                | inr missing ↦ rw (free, missing) tt
              ]
            ]))
          (λ _ w. (refl, refl))

    pub logout-Keeps : (secure : Bool) (r : Request) → Keeps part (logout secure r)
    unfolding logout
    logout-Keeps secure r =
        >>=-Keeps part (delete_if delete_auth_session r.sid_cookie) _
          (delete_if-Keeps delete_auth_session r.sid_cookie (λ t.
            unfold delete_auth_session delete_auth_row in
            exec-Keeps part (delete_auth_row t) (λ d. apart d _)))
          (λ _ w. (refl, refl))

    module _
        (people : (d : Db) (x : List Streamer) → part (record d { streamers = x }) ≡ part d) where
      login_user-Keeps : (f : Fresh) (u : TwitchUser) → Keeps part (login_user f u)
      unfolding login_user
      login_user-Keeps f u =
          >>=-Keeps part (upsert_streamer f.key_rng f.now u.id u.login u.display_name) _
            (upsert_streamer-Keeps part people f.key_rng f.now u.id u.login u.display_name)
            (λ st.
              >>=-Keeps part (create_auth_session f.session_rng f.now st.id owner session_ttl) _
                (create_auth-Keeps f.session_rng f.now st.id owner session_ttl)
                (λ _ w. (refl, refl)))

      pub login-Keeps : (f : Fresh) (u : Option TwitchUser) → Keeps part (login f u)
      unfolding login
      login-Keeps f u =
          >>=-Keeps part (exchanged u) (login_user f) (exchanged-Keeps u) (login_user-Keeps f)

      pub dev_login-Keeps : (f : Fresh) → Keeps part (dev_login f)
      unfolding dev_login
      dev_login-Keeps f = login_user-Keeps f _

  module _
      (apart : (d : Db) (x : List ViewerSession)
        → part (record d { viewer_sessions = x }) ≡ part d) where
    create_viewer-Keeps :
        (rng : Rng) (now : ℕ) (id : Text) (ttl : ℕ)
        → Keeps part (create_viewer_session rng now id ttl)
    unfolding create_viewer_session insert_viewer_session
    create_viewer-Keeps rng now id ttl =
        let s : ViewerSession = record {
          id = rand_token 32 rng;
          viewer_id = id;
          created_at = now;
          expires_at = now + ttl;
        } in
        >>=-Keeps part (exec (insert_viewer_session s)) (λ _. pure (rand_token 32 rng))
          (exec-Keeps part (insert_viewer_session s) (λ d.
            elim (Bool-cases (exists (viewer_session_at s.id) d.viewer_sessions)) [
              | inl taken ↦ rw taken tt
              | inr free ↦ elim (Bool-cases (exists (viewer_at s.viewer_id) d.viewers)) [
                | inl there ↦ rw (free, there) (apart d (d.viewer_sessions ++ s ∷ []))
                | inr missing ↦ rw (free, missing) tt
              ]
            ]))
          (λ _ w. (refl, refl))

    pub logout_viewer-Keeps : (secure : Bool) (r : Request) → Keeps part (logout_viewer secure r)
    unfolding logout_viewer
    logout_viewer-Keeps secure r =
        >>=-Keeps part (delete_if delete_viewer_session r.vsid_cookie) _
          (delete_if-Keeps delete_viewer_session r.vsid_cookie (λ t.
            unfold delete_viewer_session delete_viewer_row in
            exec-Keeps part (delete_viewer_row t) (λ d. apart d _)))
          (λ _ w. (refl, refl))

    module _ (people : (d : Db) (x : List Viewer) → part (record d { viewers = x }) ≡ part d) where
      viewer_user-Keeps : (f : Fresh) (u : TwitchUser) → Keeps part (login_viewer_user f u)
      unfolding login_viewer_user
      viewer_user-Keeps f u =
          >>=-Keeps part (upsert_viewer f.now u.id u.login u.display_name) _
            (upsert_viewer-Keeps part people f.now u.id u.login u.display_name)
            (λ v.
              >>=-Keeps part (create_viewer_session f.session_rng f.now v.id session_ttl) _
                (create_viewer-Keeps f.session_rng f.now v.id session_ttl) (λ _ w. (refl, refl)))

      pub login_viewer-Keeps : (f : Fresh) (u : Option TwitchUser) → Keeps part (login_viewer f u)
      unfolding login_viewer
      login_viewer-Keeps f u =
          >>=-Keeps part (exchanged u) (login_viewer_user f) (exchanged-Keeps u)
            (viewer_user-Keeps f)

      pub dev_login_viewer-Keeps : (f : Fresh) → Keeps part (dev_login_viewer f)
      unfolding dev_login_viewer
      dev_login_viewer-Keeps f = viewer_user-Keeps f _
