-- ===== src/Server/Logins/Viewers.antt =====
-- A viewer's login from the code that Twitch sends to the session that the browser then has.
use media_share.Prelude.{
  ℕ, ◌+◌, ◌<◌, ◌≡◌, refl, sym, ap, ◌∙◌, Option, none, some, Text, is_empty, not_empty, ◌||◌,
  Bool-cases, inl, inr,
}
use media_share.Store.Db.{Viewer, Result, ok, err, World, calm}
use media_share.Store.Sessions.{get_valid_viewer_session}
use media_share.Oauth.{Http, Decoder, exchange_code_for_user}
use media_share.Oauth.Laws.{Vouched, exchange_code_for_user-Vouched}
use media_share.Auth.{Kind, TwitchUser, Cookie, Fresh, login_viewer, session_ttl, consume_state}
use media_share.Auth.Logins.{login_viewer-accepted}
use media_share.Server.{Site}
use media_share.Server.Logins.{
  Inputs, Query, redirected, user_of, handle_auth_callback, called_back, by_kind, viewer_callback,
  viewer_landing, redirect_login_error, submit_return_path,
}
use media_share.Server.Logins.Owners.{by_twitch, user_of-right}

login_viewer-exchanged :
    (f : Fresh) (e : Option TwitchUser) (w : World) (v : Viewer) (cookie : Cookie)
    → (login_viewer f e w).0 ≡ ok (v, cookie)
    → (u : TwitchUser) × (e ≡ some u)
unfolding login_viewer
login_viewer-exchanged f none w v cookie h = cc
login_viewer-exchanged f (some u) w v cookie h = (u, refl)

viewer_landing-cookie :
    (i : Inputs) (return_to : Text) (r : Result (Viewer × Cookie)) (path : Text) (cookie : Cookie)
    → viewer_landing i return_to r ≡ redirected path (some cookie)
    → (v : Viewer) × (r ≡ ok (v, cookie)) × (path ≡ submit_return_path return_to)
unfolding viewer_landing redirect_login_error
viewer_landing-cookie i return_to (ok (v, c)) path cookie h = (v, cc, cc)
viewer_landing-cookie i return_to (err e) path cookie h = cc

-- What a login of a viewer by Twitch leaves.
pub record Entered (http : Http) (decoder : Decoder) (i : Inputs) (code return_to path : Text)
    (cookie : Cookie) (later : ℕ) (w : World) : Type 0 where
  pub back : path ≡ submit_return_path return_to
  pub user : TwitchUser
  pub vouched : Vouched http decoder i.oauth code user
  pub viewer : Viewer
  pub same_id : viewer.id ≡ user.id
  pub accepted : (get_valid_viewer_session later cookie.value (calm w.db)).0 ≡ ok viewer

viewer-Entered :
    (http : Http) (decoder : Decoder) (i : Inputs) (code return_to path : Text) (cookie : Cookie)
    (later : ℕ) (w : World)
    → later < i.fresh.now + session_ttl
    → (viewer_callback (by_twitch http decoder i) code return_to w).0
      ≡ redirected path (some cookie)
    → Entered http decoder i code return_to path cookie later
        (viewer_callback (by_twitch http decoder i) code return_to w).1
unfolding viewer_callback
viewer-Entered http decoder i code return_to path cookie later w live h =
    let a = exchange_code_for_user http decoder i.oauth code in
    let e = user_of a in
    let (v, got, back) =
      viewer_landing-cookie (by_twitch http decoder i) return_to (login_viewer i.fresh e w).0 path
        cookie h in
    let (u, is_user) = login_viewer-exchanged i.fresh e w v cookie got in
    let (same_id, accepted) =
      login_viewer-accepted i.fresh u w v cookie later
        (ap (λ x. (login_viewer i.fresh x w).0) (sym is_user) ∙ got) live in
    record {
      back = back;
      user = u;
      vouched =
          exchange_code_for_user-Vouched http decoder i.oauth code u (user_of-right a u is_user);
      viewer = v;
      same_id = same_id;
      accepted = rw is_user accepted;
    }

-- A callback for the state of a viewer's login sets a cookie only if Twitch vouched for a user by the code of
-- the callback. The browser goes back to the submit page that the state was made for; and for the thirty days
-- of a session and as long as no call of the database fails, the cookie's session is accepted for the viewer
-- with this user's id.
pub handle_auth_callback-Entered :
    (http : Http) (decoder : Decoder) (i : Inputs) (q : Query) (s : Site) (return_to path : Text)
    (cookie : Cookie) (later : ℕ)
    → later < i.fresh.now + session_ttl
    → (consume_state i.fresh.now q.state s.states).0
      ≡ some (record { kind = Kind.viewer_login; return_to = return_to })
    → (handle_auth_callback (by_twitch http decoder i) q s).0 ≡ redirected path (some cookie)
    → Entered http decoder i q.code return_to path cookie later
        (handle_auth_callback (by_twitch http decoder i) q s).1.world
unfolding handle_auth_callback redirect_login_error called_back by_kind
handle_auth_callback-Entered http decoder i q s return_to path cookie later live consumed h =
    elim (Bool-cases (not_empty q.error)) [
      | inl denied ↦ absurd (cc (rw denied at h))
      | inr on ↦ elim (Bool-cases (is_empty q.code || is_empty q.state)) [
        | inl missing ↦ absurd (cc (rw (on, missing) at h))
        | inr there ↦
            rw (on, there, consumed)
              (viewer-Entered http decoder i q.code return_to path cookie later s.world live
                (rw (on, there, consumed) at h))
      ]
    ]
