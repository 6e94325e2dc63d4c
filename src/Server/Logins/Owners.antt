-- ===== src/Server/Logins/Owners.antt =====
-- A streamer's login from the code that Twitch sends to the session that the browser then has.
use media_share.Prelude.{
  ℕ, ◌+◌, ◌<◌, ◌≡◌, ◌≢◌, refl, sym, ap, ◌∙◌, Option, none, some, Text, codes, is_empty, not_empty,
  ◌||◌, arith, Bool-cases, inl, inr,
}
use media_share.Store.Db.{Streamer, Viewer, owner, Result, ok, err, World, calm}
use media_share.Store.Sessions.{get_valid_auth_session}
use media_share.Oauth.{Answer, right, wrong, Http, Decoder, exchange_code_for_user}
use media_share.Oauth.Laws.{Vouched, exchange_code_for_user-Vouched}
use media_share.Auth.{Kind, StateInfo, TwitchUser, Cookie, Fresh, login, session_ttl, consume_state}
use media_share.Auth.Logins.{login-accepted}
use media_share.Server.{Site}
use media_share.Server.Logins.{
  Inputs, Query, redirected, user_of, handle_auth_callback, called_back, by_kind, owner_callback,
  owner_landing, viewer_callback, viewer_landing, redirect_login_error, submit_return_path,
}

-- The inputs with the exchange of internal/oauth.
abbrev pub by_twitch : Http → Decoder → Inputs → Inputs
by_twitch http decoder i = record i {
  exchange = λ code. user_of (exchange_code_for_user http decoder i.oauth code);
}

pub user_of-right : (a : Answer TwitchUser) (u : TwitchUser) → user_of a ≡ some u → a ≡ right u
user_of-right (right x) u h = cc
user_of-right (wrong e) u h = cc

login-exchanged :
    (f : Fresh) (e : Option TwitchUser) (w : World) (st : Streamer) (cookie : Cookie)
    → (login f e w).0 ≡ ok (st, cookie)
    → (u : TwitchUser) × (e ≡ some u)
unfolding login
login-exchanged f none w st cookie h = cc
login-exchanged f (some u) w st cookie h = (u, refl)

owner_landing-cookie :
    (i : Inputs) (r : Result (Streamer × Cookie)) (path : Text) (cookie : Cookie)
    → owner_landing i r ≡ redirected path (some cookie)
    → (st : Streamer) × (r ≡ ok (st, cookie))
unfolding owner_landing redirect_login_error
owner_landing-cookie i (ok (st, c)) path cookie h = (st, cc)
owner_landing-cookie i (err e) path cookie h = cc

-- No viewer is sent to the console.
viewer_landing-elsewhere :
    (i : Inputs) (return_to : Text) (r : Result (Viewer × Cookie)) (cookie : Cookie)
    → viewer_landing i return_to r ≢ redirected (codes "/admin") (some cookie)
unfolding viewer_landing redirect_login_error submit_return_path
viewer_landing-elsewhere i return_to (ok (v, c)) cookie h = elim (Bool-cases (is_empty return_to)) [
  | inl nowhere ↦ ground arith
  | inr there ↦ ground arith
]
viewer_landing-elsewhere i return_to (err e) cookie h = cc

-- What a login of a streamer by Twitch leaves.
pub record Opened (http : Http) (decoder : Decoder) (i : Inputs) (code : Text) (cookie : Cookie)
    (later : ℕ) (w : World) : Type 0 where
  pub user : TwitchUser
  pub vouched : Vouched http decoder i.oauth code user
  pub streamer : Streamer
  pub same_id : streamer.id ≡ user.id
  pub accepted : (get_valid_auth_session later cookie.value (calm w.db)).0 ≡ ok (streamer, owner)

module _ (http : Http) (decoder : Decoder) (i : Inputs) (code : Text) (cookie : Cookie) (later : ℕ)
    (live : later < i.fresh.now + session_ttl) where
  owner-Opened :
      (w : World)
      → (owner_callback (by_twitch http decoder i) code w).0
        ≡ redirected (codes "/admin") (some cookie)
      → Opened http decoder i code cookie later (owner_callback (by_twitch http decoder i) code w).1
  unfolding owner_callback
  owner-Opened w h =
      let e = user_of (exchange_code_for_user http decoder i.oauth code) in
      let (st, got) =
        owner_landing-cookie (by_twitch http decoder i) (login i.fresh e w).0 (codes "/admin")
          cookie h in
      let (u, is_user) = login-exchanged i.fresh e w st cookie got in
      let (same_id, accepted) =
        login-accepted i.fresh u w st cookie later
          (ap (λ x. (login i.fresh x w).0) (sym is_user) ∙ got) live in
      record {
        user = u;
        vouched =
            exchange_code_for_user-Vouched http decoder i.oauth code u
              (user_of-right (exchange_code_for_user http decoder i.oauth code) u is_user);
        streamer = st;
        same_id = same_id;
        accepted = rw is_user accepted;
      }

  by_kind-Opened :
      (k : Kind) (return_to : Text) (w : World)
      → (by_kind (by_twitch http decoder i) code k return_to w).0
        ≡ redirected (codes "/admin") (some cookie)
      → Opened http decoder i code cookie later
          (by_kind (by_twitch http decoder i) code k return_to w).1
  unfolding by_kind viewer_callback
  by_kind-Opened Kind.unset return_to w h = owner-Opened w h
  by_kind-Opened Kind.owner_login return_to w h = owner-Opened w h
  by_kind-Opened Kind.viewer_login return_to w h =
      absurd (viewer_landing-elsewhere (by_twitch http decoder i) return_to _ cookie h)

  called_back-Opened :
      (info : Option StateInfo) (w : World)
      → (called_back (by_twitch http decoder i) code info w).0
        ≡ redirected (codes "/admin") (some cookie)
      → Opened http decoder i code cookie later
          (called_back (by_twitch http decoder i) code info w).1
  unfolding called_back redirect_login_error
  called_back-Opened none w h = cc
  called_back-Opened (some one) w h = by_kind-Opened one.kind one.return_to w h

-- A callback sends a browser to the console with a cookie only if Twitch vouched for a user by the code of the
-- callback; and then, for the thirty days of a session and as long as no call of the database fails, the
-- cookie's session is accepted for the owner with this user's id.
pub handle_auth_callback-Opened :
    (http : Http) (decoder : Decoder) (i : Inputs) (q : Query) (s : Site) (cookie : Cookie)
    (later : ℕ)
    → later < i.fresh.now + session_ttl
    → (handle_auth_callback (by_twitch http decoder i) q s).0
      ≡ redirected (codes "/admin") (some cookie)
    → Opened http decoder i q.code cookie later
        (handle_auth_callback (by_twitch http decoder i) q s).1.world
unfolding handle_auth_callback redirect_login_error
handle_auth_callback-Opened http decoder i q s cookie later live h =
    let info = (consume_state i.fresh.now q.state s.states).0 in
    elim (Bool-cases (not_empty q.error)) [
      | inl denied ↦ absurd (cc (rw denied at h))
      | inr on ↦ elim (Bool-cases (is_empty q.code || is_empty q.state)) [
        | inl missing ↦ absurd (cc (rw (on, missing) at h))
        | inr there ↦
            rw (on, there)
              (called_back-Opened http decoder i q.code cookie later live info s.world
                (rw (on, there) at h))
      ]
    ]
