-- ===== src/Auth/Middleware.antt =====
-- internal/auth/auth.go: the logouts, the authentication of a request, and the middleware.
pub mod Guards
pub mod Frames
use media_share.Prelude.{
  ℕ, Bool, true, false, ◌||◌, Option, none, some, Text, codes, same, is_empty, if◌then◌else◌,
}
use media_share.Strings.{to_lower}
use media_share.Store.Db.{
  Role, owner, moderator, Streamer, Viewer, Result, ok, err, not_found, unauthenticated, World, Sql,
  pure, raise, attempt, ◌>>=◌, ◌>>◌,
}
use media_share.Store.Sessions.{
  delete_auth_session, delete_viewer_session, get_valid_auth_session, get_valid_viewer_session,
}
use media_share.Auth.{Cookie, sid, vsid, clear_cookie}

pub data Method : Type 0 where
  get head options post put patch delete_method : Method

-- What the authentication reads of a request.
pub record Request : Type 0 where
  pub method : Method
  pub sec_fetch_site : Text
  pub sid_cookie : Option Text
  pub vsid_cookie : Option Text

unfoldable pub delete_if : (Text → Sql (Unit {0})) → Option Text → Sql (Unit {0})
delete_if drop none = pure tt
delete_if drop (some id) = attempt (drop id) >> pure tt

unfoldable pub logout : Bool → Request → Sql Cookie
unfolding delete_if clear_cookie
logout secure r = delete_if delete_auth_session r.sid_cookie >> pure (clear_cookie secure sid)

unfoldable pub logout_viewer : Bool → Request → Sql Cookie
unfolding delete_if clear_cookie
logout_viewer secure r =
    delete_if delete_viewer_session r.vsid_cookie >> pure (clear_cookie secure vsid)

-- `errors.Is(err, store.ErrNotFound)` becomes ErrUnauthenticated.
known : {A : Type 0} → Result A → Sql A
known (ok a) = pure a
known (err not_found) = raise unauthenticated
known (err e) = raise e

with_cookie : {A : Type 0} → (Text → Sql A) → Option Text → Sql A
unfolding known
with_cookie check none = raise unauthenticated
with_cookie check (some id) =
    if is_empty id then raise unauthenticated else do found ← attempt (check id); known found

unfoldable pub authenticate : ℕ → Request → Sql (Streamer × Role)
unfolding with_cookie
authenticate now r = with_cookie (get_valid_auth_session now) r.sid_cookie

unfoldable pub authenticate_viewer : ℕ → Request → Sql Viewer
unfolding with_cookie
authenticate_viewer now r = with_cookie (get_valid_viewer_session now) r.vsid_cookie

is_safe : Method → Bool
is_safe get = true
is_safe head = true
is_safe options = true
is_safe _ = false

-- A request without the header, as from a program that is no browser, passes, and so does one that the user
-- began (`none`).
unfoldable pub same_site : Request → Bool
unfolding is_safe
same_site r =
    let site = to_lower r.sec_fetch_site in
    is_safe r.method
    || is_empty site
    || same site (codes "same-origin")
    || same site (codes "same-site")
    || same site (codes "none")

-- What a guard writes itself, or the result of the handler behind it.
pub data Guarded (A : Type 0) : Type 0 where
  blocked : ℕ → Guarded A
  passed : A → Guarded A

-- A handler over the database; the handlers of internal/server carry their own state in `A`.
abbrev pub Handler : Type 0 → Type 0
Handler A = World → Guarded A × World

unfoldable pub streamer_gate :
    {A : Type 0} → (Streamer → Role → Handler A) → Result (Streamer × Role) → Handler A
streamer_gate next (ok (st, role)) w = next st role w
streamer_gate next (err e) w = (blocked 401, w)

unfoldable pub require_streamer :
    {A : Type 0} → ℕ → (Streamer → Role → Handler A) → Request → Handler A
unfolding streamer_gate
require_streamer now next r w =
    if same_site r
    then (let (who, w') = authenticate now r w in streamer_gate next who w')
    else (blocked 403, w)

unfoldable pub owner_gate : {A : Type 0} → (Streamer → Handler A) → Streamer → Role → Handler A
owner_gate next st owner w = next st w
owner_gate next st moderator w = (blocked 403, w)

unfoldable pub require_owner : {A : Type 0} → ℕ → (Streamer → Handler A) → Request → Handler A
unfolding require_streamer owner_gate
require_owner now next = require_streamer now (owner_gate next)

unfoldable pub viewer_gate : {A : Type 0} → (Viewer → Handler A) → Result Viewer → Handler A
viewer_gate next (ok v) w = next v w
viewer_gate next (err e) w = (blocked 401, w)

unfoldable pub require_viewer : {A : Type 0} → ℕ → (Viewer → Handler A) → Request → Handler A
unfolding viewer_gate
require_viewer now next r w =
    if same_site r
    then (let (who, w') = authenticate_viewer now r w in viewer_gate next who w')
    else (blocked 403, w)
