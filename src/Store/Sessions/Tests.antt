-- ===== src/Store/Sessions/Tests.antt =====
-- Logins, moderator links and expiry on a small database.
use media_share.Prelude.{
  ℕ, ◌+◌, ◌≤◌, ◌≡◌, ◌≢◌, refl, Bool, true, false, Option, none, some, List, [], ◌∷◌, Text, codes,
  same, arith, if◌then◌else◌,
}
use media_share.Random.{Rng, rand_token}
use media_share.Store.Db.{
  owner, moderator, Streamer, AuthSession, Db, Result, ok, World, calm, empty_db,
}
use media_share.Store.People.{select_streamer, upsert_streamer}
use media_share.Store.Sessions.{
  create_auth_session, get_valid_auth_session, regenerate_moderator_link, resolve_moderator_link,
  revoke_moderator_access, select_auth_session,
}

abbrev bytes : ℕ → Rng
bytes b _ = b

abbrev ann : Text
ann = codes "ann"

abbrev ann_row : Streamer
ann_row = record {
  id = ann;
  login = ann;
  display_name = ann;
  player_key = codes "key";
  created_at = 1;
  last_login_at = 1;
}

abbrev old_session : AuthSession
old_session = record {
  id = codes "old";
  streamer_id = ann;
  role = owner;
  created_at = 0;
  expires_at = 9;
}

abbrev club : Db
club = record empty_db {
  streamers = ann_row ∷ [];
  auth_sessions = old_session ∷ [];
  moderator_links = record { token = codes "t"; streamer_id = ann; created_at = 2 } ∷ [];
}

revoked_ok : (revoke_moderator_access ann (calm club)).0 ≡ ok tt
unfolding revoke_moderator_access media_share.Store.Sessions.delete_links
    media_share.Store.Sessions.delete_moderators
revoked_ok = refl

abbrev relinking : Result Text × World
relinking = regenerate_moderator_link (bytes 4) 3 ann (calm club)

relinked_ok : relinking.0 ≡ ok (rand_token 24 (bytes 4))
unfolding regenerate_moderator_link media_share.Store.Sessions.delete_links
    media_share.Store.Sessions.insert_link media_share.Prelude.exists media_share.Prelude.select
    media_share.Prelude.delete_where same
relinked_ok = refl

relinked_resolves :
    (resolve_moderator_link (rand_token 24 (bytes 4)) (calm relinking.1.db)).0 ≡ ok ann
unfolding regenerate_moderator_link resolve_moderator_link rand_token
    media_share.Store.Sessions.select_link_streamer media_share.Prelude.select
    media_share.Store.Sessions.delete_links media_share.Store.Sessions.insert_link
    media_share.Prelude.exists media_share.Prelude.delete_where same
relinked_resolves = refl

created :
    (create_auth_session (bytes 5) 10 ann moderator 100 (calm club)).0
    ≡ ok (rand_token 32 (bytes 5))
unfolding create_auth_session media_share.Store.Sessions.insert_auth_session
    media_share.Prelude.exists media_share.Prelude.select same rand_token
created = refl

ann_there : select_streamer ann club ≡ some ann_row
unfolding select_streamer media_share.Prelude.select same
ann_there = refl

old_there : select_auth_session (codes "old") club ≡ some old_session
unfolding select_auth_session media_share.Prelude.select same
old_there = refl

abbrev ann_again : Streamer
ann_again = record ann_row { login = codes "a"; display_name = codes "A"; last_login_at = 8 }

logged_in : (upsert_streamer (bytes 6) 8 ann (codes "a") (codes "A") (calm club)).0 ≡ ok ann_again
unfolding upsert_streamer select_streamer media_share.Prelude.select same
    media_share.Store.People.update_streamer
logged_in = refl
