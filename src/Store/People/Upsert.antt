-- ===== src/Store/People/Upsert.antt =====
-- The row that a login writes.
use media_share.Prelude.{
  ℕ, ◌≡◌, refl, Option, none, some, Text, same, same_iff, arith, inl, inr, Option-cases, select,
  exists, select-append, select-update, select-fits, if◌then◌else◌,
}
use media_share.Random.{Rng, rand_token}
use media_share.Store.Db.{Streamer, Db, Error, Result, ok, err, World}
use media_share.Store.People.{
  streamer_at, streamer_seen, select_streamer, update_streamer, insert_streamer, upsert_streamer,
}

abbrev new_streamer : Rng → ℕ → Text → Text → Text → Streamer
new_streamer rng now id login name = record {
  id = id;
  login = login;
  display_name = name;
  player_key = rand_token 16 rng;
  created_at = now;
  last_login_at = now;
}

-- What an upsert does, by the row that it finds.
abbrev upsert_effect : Rng → ℕ → Text → Text → Text → Option Streamer → Db → Result (Unit {0} × Db)
upsert_effect rng now id login name none d = insert_streamer (new_streamer rng now id login name) d
upsert_effect rng now id login name (some s) d = update_streamer id login name now d

abbrev upserted : Rng → ℕ → Text → Text → Text → Option Streamer → Streamer
upserted rng now id login name none = new_streamer rng now id login name
upserted rng now id login name (some s) = streamer_seen login name now s

abbrev Upserts : (Db → Result (Unit {0} × Db)) → Streamer → Result Streamer → Db → Db → Type 0
Upserts effect st (ok st') d d' = (st' ≡ st) × (effect d ≡ ok (tt, d'))
Upserts effect st (err e) d d' = d' ≡ d

upsert_streamer_inv :
    (rng : Rng) (now : ℕ) (id login name : Text) (w : World)
    → Upserts
        (upsert_effect rng now id login name (select_streamer id w.db))
        (upserted rng now id login name (select_streamer id w.db))
        (upsert_streamer rng now id login name w).0
        w.db
        (upsert_streamer rng now id login name w).1.db
unfolding upsert_streamer
upsert_streamer_inv rng now id login name w = elim (Option-cases (select_streamer id w.db)) [
  | inl missing ↦ rw missing (ground arith)
  | inr (s, at) ↦ rw at (ground arith)
]

-- The rows behind an upsert.
select-upsert_effect :
    (rng : Rng) (now : ℕ) (id login name j : Text) (d d' : Db)
    → upsert_effect rng now id login name (select_streamer id d) d ≡ ok (tt, d')
    → select_streamer j d' ≡ (
        if same id j
        then some (upserted rng now id login name (select_streamer id d))
        else select_streamer j d)
unfolding select_streamer update_streamer insert_streamer exists
select-upsert_effect rng now id login name j d d' h =
    elim (Option-cases (select (streamer_at id) d.streamers)) [
      | inl missing ↦
          let e = rw missing at h in
          ground (
            arith,
            select-append (streamer_at j) d.streamers (new_streamer rng now id login name),
            same_iff id j,
            missing,
          )
      | inr (s, at) ↦ updated s at (rw at at h)
    ]
  where
    updated :
        (s : Streamer)
        → select (streamer_at id) d.streamers ≡ some s
        → update_streamer id login name now d ≡ ok (tt, d')
        → select (streamer_at j) d'.streamers ≡ (
            if same id j
            then some (upserted rng now id login name (select (streamer_at id) d.streamers))
            else select (streamer_at j) d.streamers)
    updated s at e =
        let step =
          select-update (streamer_at j) (streamer_at id) (streamer_seen login name now) d.streamers
            (λ x. refl) in
        elim (Option-cases (select (streamer_at j) d.streamers)) [
          | inl other ↦ ground (arith, step, same_iff id j)
          | inr (u, here) ↦ ground (
            arith,
            step,
            same_iff id j,
            same_iff u.id id,
            same_iff u.id j,
            select-fits (streamer_at j) d.streamers u here,
          )
        ]

-- A login that succeeds returns the row that the table then holds, touches no other streamer's row,
-- and keeps the player key and the time of creation of a streamer who was there.
pub upsert_streamer_lem :
    (rng : Rng) (now : ℕ) (id login name j : Text) (w : World) (st : Streamer)
    → (upsert_streamer rng now id login name w).0 ≡ ok st
    → (select_streamer j (upsert_streamer rng now id login name w).1.db
        ≡ (if same id j then some st else select_streamer j w.db))
      × (st ≡ elim (select_streamer id w.db) [
        | none ↦ new_streamer rng now id login name
        | some s ↦ record s { login = login; display_name = name; last_login_at = now }
      ])
upsert_streamer_lem rng now id login name j w st h =
    let (is_st, made) = rw h at (upsert_streamer_inv rng now id login name w) in
    (rw is_st (select-upsert_effect rng now id login name j w.db _ made), is_st)

-- A login that fails changes no table.
upsert_streamer_fails :
    (rng : Rng) (now : ℕ) (id login name : Text) (w : World) (e : Error)
    → (upsert_streamer rng now id login name w).0 ≡ err e
    → (upsert_streamer rng now id login name w).1.db ≡ w.db
upsert_streamer_fails rng now id login name w e h =
    rw h at (upsert_streamer_inv rng now id login name w)
