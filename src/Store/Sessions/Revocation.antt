-- ===== src/Store/Sessions/Revocation.antt =====
-- Taking a moderator's access away.
use media_share.Prelude.{
  ℕ, ◌+◌, ◌≤◌, ◌∙◌, ◌≡◌, ◌≢◌, sym, false, none, some, Text, same_iff, arith, inl, inr, Option-cases,
  select, exists, delete_where, select-fits, select_of_delete, select-delete_kept, select-append,
}
use media_share.Random.{Rng, rand_token}
use media_share.Store.Db.{
  Role, moderator, AuthSession, ModeratorLink, Streamer, Db, Result, ok, err, World,
}
use media_share.Store.People.{streamer_at, select_streamer}
use media_share.Store.Sessions.{
  auth_session_at, link_of, link_at, moderates, delete_links, delete_moderators, insert_link,
  select_auth_session, select_link_streamer, get_valid_auth_session, resolve_moderator_link,
  regenerate_moderator_link, revoke_moderator_access,
}

-- The tables after a revocation.
abbrev revoked : Text → Db → Db
revoked streamer_id d = record d {
  moderator_links = delete_where (link_of streamer_id) d.moderator_links;
  auth_sessions = delete_where (moderates streamer_id) d.auth_sessions;
}

abbrev Revokes : Text → Result (Unit {0}) → Db → Db → Type 0
Revokes streamer_id (ok _) d d' = d' ≡ revoked streamer_id d
Revokes streamer_id (err e) d d' = d' ≡ d

-- A revocation is made whole, or the tables stay as they were; no transaction stays open.
pub revoke_atomic :
    (streamer_id : Text) (w : World)
    → w.saved ≡ none
    → Revokes streamer_id
        (revoke_moderator_access streamer_id w).0
        w.db
        (revoke_moderator_access streamer_id w).1.db
      × ((revoke_moderator_access streamer_id w).1.saved ≡ none)
unfolding revoke_moderator_access delete_links delete_moderators
revoke_atomic streamer_id w idle = (ground arith, ground arith)

-- What a session check that succeeds has seen.
get_valid_inv :
    (now : ℕ) (id : Text) (w : World) (st : Streamer) (role : Role)
    → (get_valid_auth_session now id w).0 ≡ ok (st, role)
    → (s : AuthSession) × (select_auth_session id w.db ≡ some s)
      × (select_streamer s.streamer_id w.db ≡ some st)
      × (s.role ≡ role)
      × (now + 1 ≤ s.expires_at)
unfolding get_valid_auth_session
get_valid_inv now id w st role e = elim (Option-cases (select_auth_session id w.db)) [
  | inl missing ↦ ground arith
  | inr (s, at) ↦ (s, at, ground arith, ground arith, ground arith)
]

-- A revocation that succeeds has done both deletions.
revoked_of_ok :
    (streamer_id : Text) (w : World)
    → w.saved ≡ none
    → (revoke_moderator_access streamer_id w).0 ≡ ok tt
    → (revoke_moderator_access streamer_id w).1.db ≡ revoked streamer_id w.db
revoked_of_ok streamer_id w idle h = rw h at (revoke_atomic streamer_id w idle).0

module _ (streamer_id : Text) (w w' : World) (idle : w.saved ≡ none)
    (done : (revoke_moderator_access streamer_id w).0 ≡ ok tt)
    (later : w'.db ≡ (revoke_moderator_access streamer_id w).1.db) where
  after : w'.db ≡ revoked streamer_id w.db
  after = later ∙ revoked_of_ok streamer_id w idle done

  -- Behind a revocation that succeeded no session check lets in a moderator of the streamer, whenever
  -- it is made and whichever calls of the database fail.
  pub revoked-moderators :
      (now : ℕ) (id : Text) (st : Streamer)
      → (get_valid_auth_session now id w').0 ≡ ok (st, moderator)
      → st.id ≢ streamer_id
  unfolding select_auth_session select_streamer
  revoked-moderators now id st h mine =
      let (s, at, owner_row, role, live) = get_valid_inv now id w' st moderator h in
      ground (
        arith,
        after,
        select_of_delete (auth_session_at id) (moderates streamer_id) w.db.auth_sessions s,
        select-fits (streamer_at s.streamer_id) w'.db.streamers st owner_row,
        same_iff st.id s.streamer_id,
        same_iff s.streamer_id streamer_id,
      )

  -- Behind a revocation that succeeded no moderator link leads to the streamer.
  revoked-links : (token : Text) → (resolve_moderator_link token w').0 ≢ ok streamer_id
  unfolding resolve_moderator_link select_link_streamer
  revoked-links token h = elim (Option-cases (select (link_at token) w'.db.moderator_links)) [
    | inl missing ↦ ground arith
    | inr (l, at) ↦ ground (
      arith,
      after,
      select_of_delete (link_at token) (link_of streamer_id) w.db.moderator_links l,
      same_iff l.streamer_id streamer_id,
    )
  ]

  -- A revocation that succeeds keeps every session that is no moderator's of the streamer.
  pub revoked-keeps :
      (id : Text) (s : AuthSession)
      → select_auth_session id w.db ≡ some s
      → moderates streamer_id s ≡ false
      → select_auth_session id w'.db ≡ some s
  unfolding select_auth_session
  revoked-keeps id s at other = rw after (
      select-delete_kept (auth_session_at id) (moderates streamer_id) w.db.auth_sessions s at other)

-- The tables after a new link.
abbrev relinked : Text → Text → ℕ → Db → Result (Unit {0} × Db)
relinked token streamer_id now d =
    insert_link (record { token = token; streamer_id = streamer_id; created_at = now })
      (record d { moderator_links = delete_where (link_of streamer_id) d.moderator_links })

abbrev Relinks : (Db → Result (Unit {0} × Db)) → Text → Result Text → Db → Db → Type 0
Relinks effect token (ok t) d d' = (t ≡ token) × (effect d ≡ ok (tt, d'))
Relinks effect token (err e) d d' = d' ≡ d

-- A new moderator link is made whole, with the old one deleted, or the tables stay as they were.
pub regenerate_atomic :
    (rng : Rng) (now : ℕ) (streamer_id : Text) (w : World)
    → w.saved ≡ none
    → Relinks
        (relinked (rand_token 24 rng) streamer_id now)
        (rand_token 24 rng)
        (regenerate_moderator_link rng now streamer_id w).0
        w.db
        (regenerate_moderator_link rng now streamer_id w).1.db
      × ((regenerate_moderator_link rng now streamer_id w).1.saved ≡ none)
unfolding regenerate_moderator_link delete_links
regenerate_atomic rng now streamer_id w idle = (ground arith, ground arith)

relinked_resolve :
    (token streamer_id tok : Text) (now : ℕ) (d d' : Db)
    → relinked token streamer_id now d ≡ ok (tt, d')
    → select_link_streamer tok d' ≡ some streamer_id
    → tok ≡ token
unfolding insert_link select_link_streamer exists
relinked_resolve token streamer_id tok now d d' h e =
    let old = delete_where (link_of streamer_id) d.moderator_links in
    let l : ModeratorLink = record { token = token; streamer_id = streamer_id; created_at = now } in
    elim (Option-cases (select (link_at tok) old)) [
      | inl missing ↦ ground (arith, select-append (link_at tok) old l, same_iff token tok)
      | inr (k, at) ↦ ground (
        arith,
        select-append (link_at tok) old l,
        select_of_delete (link_at tok) (link_of streamer_id) d.moderator_links k,
        same_iff k.streamer_id streamer_id,
      )
    ]

-- Behind a new moderator link that succeeded only the new token leads to the streamer, whichever
-- calls of the database fail later: the old link is dead.
regenerate_moderator_link-only :
    (rng : Rng) (now : ℕ) (streamer_id token tok : Text) (w w' : World)
    → w.saved ≡ none
    → (regenerate_moderator_link rng now streamer_id w).0 ≡ ok token
    → w'.db ≡ (regenerate_moderator_link rng now streamer_id w).1.db
    → (resolve_moderator_link tok w').0 ≡ ok streamer_id
    → tok ≡ token
unfolding resolve_moderator_link
regenerate_moderator_link-only rng now streamer_id token tok w w' idle h later e =
    let (is_token, made) = rw h at (regenerate_atomic rng now streamer_id w idle).0 in
    relinked_resolve (rand_token 24 rng) streamer_id tok now w.db _ made
      (rw (← later) (ground arith))
    ∙ sym is_token

relinked-accounts :
    (token streamer_id : Text) (now : ℕ) (d : Db) (t : Text) (r : Result Text) (d' : Db)
    → Relinks (relinked token streamer_id now) t r d d'
    → (d'.credit_balances ≡ d.credit_balances) × (d'.credit_ledger ≡ d.credit_ledger)
unfolding insert_link
relinked-accounts token streamer_id now d t (ok _) d' h = (ground (arith, h), ground (arith, h))
relinked-accounts token streamer_id now d t (err e) d' h = (ground (arith, h), ground (arith, h))

-- A new moderator link leaves the accounts alone.
pub regenerate-accounts :
    (rng : Rng) (now : ℕ) (streamer_id : Text) (w : World)
    → w.saved ≡ none
    → ((regenerate_moderator_link rng now streamer_id w).1.db.credit_balances
        ≡ w.db.credit_balances)
      × ((regenerate_moderator_link rng now streamer_id w).1.db.credit_ledger ≡ w.db.credit_ledger)
regenerate-accounts rng now streamer_id w idle =
    let r = regenerate_moderator_link rng now streamer_id w in
    relinked-accounts (rand_token 24 rng) streamer_id now w.db (rand_token 24 rng) r.0 r.1.db
      (regenerate_atomic rng now streamer_id w idle).0

revoked-accounts :
    (streamer_id : Text) (r : Result (Unit {0})) (d d' : Db)
    → Revokes streamer_id r d d'
    → (d'.credit_balances ≡ d.credit_balances) × (d'.credit_ledger ≡ d.credit_ledger)
revoked-accounts streamer_id (ok _) d d' h = (ground (arith, h), ground (arith, h))
revoked-accounts streamer_id (err e) d d' h = (ground (arith, h), ground (arith, h))

-- A revocation leaves the accounts alone.
pub revoke-accounts :
    (streamer_id : Text) (w : World)
    → w.saved ≡ none
    → ((revoke_moderator_access streamer_id w).1.db.credit_balances ≡ w.db.credit_balances)
      × ((revoke_moderator_access streamer_id w).1.db.credit_ledger ≡ w.db.credit_ledger)
revoke-accounts streamer_id w idle =
    let r = revoke_moderator_access streamer_id w in
    revoked-accounts streamer_id r.0 w.db r.1.db (revoke_atomic streamer_id w idle).0
