-- ===== src/Auth/Tests.antt =====
-- A login, an invited moderator, and the guards.
use media_share.Prelude.{
  ℕ, ◌+◌, ◌≡◌, ◌≢◌, ◌⊎◌, refl, Bool, true, false, Option, none, some, List, [], ◌∷◌, Text, codes,
  same_iff, arith, if◌then◌else◌, ltb,
}
use media_share.Random.{Rng}
use media_share.Strings.{to_lower}
use media_share.Store.Db.{
  Role, owner, moderator, Streamer, AuthSession, Db, ok, World, calm, empty_db,
}
use media_share.Store.Sessions.{get_valid_auth_session, revoke_moderator_access}
use media_share.Auth.{Kind, StateEntry, authorize, consume_state, kind_or_owner, prune, state_ttl}
use media_share.Auth.Middleware.{
  Handler, Method, Request, passed, require_owner, require_streamer, same_site,
}
use media_share.Auth.Middleware.Guards.{
  IsOwnSite, IsReading, require_owner-passes, revoked-locked_out, whoami,
}
use media_share.Auth.States.{authorize-consume_state}

abbrev bytes : ℕ → Rng
bytes b _ = b

abbrev pending : Text × List (Text × StateEntry)
pending = authorize (bytes 1) 100 Kind.viewer_login (codes "/s/x") []

authorize-consume_state_example : (consume_state 700 pending.0 pending.1).0 ≡ (
    if ltb (100 + state_ttl) 700
    then none
    else some (record { kind = kind_or_owner Kind.viewer_login; return_to = codes "/s/x" }))
authorize-consume_state_example =
    authorize-consume_state (bytes 1) 100 700 Kind.viewer_login (codes "/s/x") [] tt

abbrev one_state : List (Text × StateEntry)
one_state = (codes "st", record { expires = 700; kind = Kind.unset; return_to = [] }) ∷ []

abbrev streamer : Text → Streamer
streamer id = record {
  id = id;
  login = id;
  display_name = id;
  player_key = id;
  created_at = 0;
  last_login_at = 0;
}

abbrev session : Text → Text → Role → AuthSession
session id streamer_id role = record {
  id = id;
  streamer_id = streamer_id;
  role = role;
  created_at = 0;
  expires_at = 1000;
}

abbrev logins : Db
logins = record empty_db {
  streamers = streamer (codes "ann") ∷ streamer (codes "bob") ∷ [];
  auth_sessions =
      session (codes "o") (codes "ann") owner
      ∷ session (codes "m") (codes "ann") moderator
      ∷ session (codes "n") (codes "bob") moderator
      ∷ [];
}

abbrev posted : Text → Request
posted id = record {
  method = Method.post;
  sec_fetch_site = codes "same-origin";
  sid_cookie = some id;
  vsid_cookie = none;
}

abbrev who_owns : Streamer → Handler Streamer
who_owns st w = (passed st, w)

owner_in :
    (require_owner 10 who_owns (posted (codes "o")) (calm logins)).0
    ≡ passed (streamer (codes "ann"))
unfolding require_owner get_valid_auth_session same_site to_lower media_share.Prelude.same
    media_share.Auth.Middleware.authenticate media_share.Store.Sessions.select_auth_session
    media_share.Prelude.select media_share.Store.People.select_streamer
owner_in = refl

require_owner-passes_example :
    (IsReading Method.post ⊎ IsOwnSite (to_lower (codes "same-origin")))
    × ((id : Text) × (st : Streamer) × ((posted (codes "o")).sid_cookie ≡ some id)
        × ((get_valid_auth_session 10 id (calm logins)).0 ≡ ok (st, owner))
        × (require_owner 10 who_owns (posted (codes "o")) (calm logins)
            ≡ who_owns st (get_valid_auth_session 10 id (calm logins)).1))
require_owner-passes_example =
    require_owner-passes 10 who_owns (posted (codes "o")) (calm logins) (streamer (codes "ann"))
      owner_in

abbrev behind : World
behind = calm (revoke_moderator_access (codes "ann") (calm logins)).1.db

revoked_ok : (revoke_moderator_access (codes "ann") (calm logins)).0 ≡ ok tt
unfolding revoke_moderator_access media_share.Store.Sessions.delete_links
    media_share.Store.Sessions.delete_moderators
revoked_ok = refl

other_moderator_in :
    (require_streamer 10 whoami (posted (codes "n")) behind).0
    ≡ passed (streamer (codes "bob"), moderator)
unfolding revoke_moderator_access require_streamer get_valid_auth_session same_site to_lower
    media_share.Prelude.same media_share.Auth.Middleware.authenticate
    media_share.Store.Sessions.select_auth_session media_share.Prelude.select
    media_share.Store.Sessions.delete_links media_share.Store.Sessions.delete_moderators
    media_share.Prelude.delete_where media_share.Store.People.select_streamer
other_moderator_in = refl

revoked-locked_out_example : (streamer (codes "bob")).id ≢ codes "ann"
revoked-locked_out_example =
    revoked-locked_out (codes "ann") (calm logins) behind 10 (posted (codes "n"))
      (streamer (codes "bob")) refl revoked_ok refl other_moderator_in
