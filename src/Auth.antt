-- ===== src/Auth.antt =====
-- internal/auth/auth.go: the single-use OAuth states, the logins and the cookies. Times
-- are seconds. The exchange of a code with Twitch (internal/oauth) is an argument: `none` is its error.
pub mod States
pub mod Middleware
pub mod Parts
pub mod Logins
mod Tests
use media_share.Prelude.{
  ℕ, ◌+◌, ◌*◌, Bool, Option, none, some, [], ◌∷◌, Text, codes, Assoc, lookup, insert, delete, ltb,
  if◌then◌else◌,
}
use media_share.Random.{Rng, rand_token}
use media_share.Store.Db.{
  owner, moderator, Streamer, Viewer, exchange_failed, Sql, pure, raise, ◌>>=◌, ◌>>◌,
}
use media_share.Store.People.{upsert_streamer, upsert_viewer}
use media_share.Store.Sessions.{create_auth_session, create_viewer_session}

abbrev pub state_ttl : ℕ
state_ttl = 600

abbrev pub session_ttl : ℕ
session_ttl = 30 * 24 * 3600

-- `unset` is the empty kind.
pub data Kind : Type 0 where
  unset owner_login viewer_login : Kind

pub record StateEntry : Type 0 where
  pub expires : ℕ
  pub kind : Kind
  pub return_to : Text

pub record StateInfo : Type 0 where
  pub kind : Kind
  pub return_to : Text

-- Drops the entries behind their end: `now.After(e.expires)`.
unfoldable pub prune : ℕ → Assoc StateEntry → Assoc StateEntry
prune now [] = []
prune now ((s, e) ∷ states) =
    let rest = prune now states in if ltb e.expires now then rest else (s, e) ∷ rest

-- The fresh state, which the consent URL then carries, and the states with it.
unfoldable pub authorize : Rng → ℕ → Kind → Text → Assoc StateEntry → Text × Assoc StateEntry
authorize rng now kind return_to states =
    let state = rand_token 24 rng in
    (
      state,
      insert state (record { expires = now + state_ttl; kind = kind; return_to = return_to })
          (prune now states),
    )

consume_found : Text → Option StateEntry → Assoc StateEntry → Option StateEntry × Assoc StateEntry
consume_found state none states = (none, states)
consume_found state (some e) states = (some e, delete state states)

unfoldable pub consume_state_entry :
    ℕ → Text → Assoc StateEntry → Option StateEntry × Assoc StateEntry
unfolding consume_found
consume_state_entry now state states =
    let left = prune now states in consume_found state (lookup state left) left

abbrev kind_or_owner : Kind → Kind
kind_or_owner Kind.unset = Kind.owner_login
kind_or_owner k = k

abbrev info_of : Option StateEntry → Option StateInfo
info_of none = none
info_of (some e) = some (record { kind = kind_or_owner e.kind; return_to = e.return_to })

unfoldable pub consume_state : ℕ → Text → Assoc StateEntry → Option StateInfo × Assoc StateEntry
unfolding consume_state_entry
consume_state now state states =
    let (e, left) = consume_state_entry now state states in (info_of e, left)

-- The cookies sid and vsid; HttpOnly, the path and the same-site mode are fixed.
pub data CookieName : Type 0 where
  sid vsid : CookieName

-- `max_age` is `none` for a cookie that is cleared (MaxAge -1).
pub record Cookie : Type 0 where
  pub name : CookieName
  pub value : Text
  pub secure : Bool
  pub max_age : Option ℕ

unfoldable pub set_cookie : Bool → CookieName → Text → Cookie
set_cookie secure name value = record {
  name = name;
  value = value;
  secure = secure;
  max_age = some session_ttl;
}

unfoldable pub clear_cookie : Bool → CookieName → Cookie
clear_cookie secure name = record { name = name; value = []; secure = secure; max_age = none }

-- A Twitch user, as the exchange returns it.
pub record TwitchUser : Type 0 where
  pub id : Text
  pub login : Text
  pub display_name : Text

-- What a login reads besides its arguments.
pub record Fresh : Type 0 where
  pub key_rng : Rng
  pub session_rng : Rng
  pub now : ℕ
  pub secure : Bool

exchanged : Option TwitchUser → Sql TwitchUser
exchanged none = raise exchange_failed
exchanged (some u) = pure u

login_user : Fresh → TwitchUser → Sql (Streamer × Cookie)
unfolding set_cookie
login_user f u = do
  streamer ← upsert_streamer f.key_rng f.now u.id u.login u.display_name
  id ← create_auth_session f.session_rng f.now streamer.id owner session_ttl
  pure (streamer, set_cookie f.secure sid id)

unfoldable pub login : Fresh → Option TwitchUser → Sql (Streamer × Cookie)
unfolding exchanged login_user
login f user = do u ← exchanged user; login_user f u

login_viewer_user : Fresh → TwitchUser → Sql (Viewer × Cookie)
unfolding set_cookie
login_viewer_user f u = do
  viewer ← upsert_viewer f.now u.id u.login u.display_name
  id ← create_viewer_session f.session_rng f.now viewer.id session_ttl
  pure (viewer, set_cookie f.secure vsid id)

unfoldable pub login_viewer : Fresh → Option TwitchUser → Sql (Viewer × Cookie)
unfolding exchanged login_viewer_user
login_viewer f user = do u ← exchanged user; login_viewer_user f u

unfoldable pub login_moderator : Fresh → Text → Sql Cookie
unfolding set_cookie
login_moderator f owner_id = do
  id ← create_auth_session f.session_rng f.now owner_id moderator session_ttl
  pure (set_cookie f.secure sid id)

unfoldable pub dev_login : Fresh → Sql (Streamer × Cookie)
unfolding login_user
dev_login f =
    login_user f
      (record { id = codes "dev"; login = codes "dev"; display_name = codes "Dev Streamer" })

unfoldable pub dev_login_viewer : Fresh → Sql (Viewer × Cookie)
unfolding login_viewer_user
dev_login_viewer f = login_viewer_user f (record {
  id = codes "devviewer";
  login = codes "devviewer";
  display_name = codes "Dev Viewer";
})
