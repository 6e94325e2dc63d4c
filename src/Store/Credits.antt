-- ===== src/Store/Credits.antt =====
-- The credits of internal/store/store.go: CreditBits, SpendCredits, Balance, GrantCredits and
-- insertLedger. The `now` arguments are the times that the code reads, and `rng` the random bytes of
-- the ledger entry's id.
pub mod Atomic
pub mod Balances
pub mod Audit
pub mod Accounts
pub mod Replay
pub mod Spending
pub mod Rows
pub mod Payments
use media_share.Prelude.{
  ℕ, ◌≡◌, Bool, true, false, not, ◌&&◌, ◌||◌, Option, none, some, List, [], ◌∷◌, ◌++◌, Text, same,
  select, update, exists, count_where, if◌then◌else◌, ◌==◌,
}
use media_share.Prelude.Int.{ℤ, pos, negsuc, ◌+ℤ◌, ◌-ℤ◌, leb_ℤ, ltb_ℤ}
use media_share.Random.{Rng, rand_token}
use media_share.Store.Db.{
  Streamer, Viewer, CreditBalance, BitsEvent, LedgerEntry, Reason, Db, Error, Result, ok, err, Sql,
  not_found, unique_violation, foreign_key, negative_cost, pure, raise, attempt, ◌>>=◌, ◌>>◌, exec,
  query_row, rows_affected, begin, commit, deferring_rollback,
}

-- `WHERE viewer_id=? AND streamer_id=?`
abbrev pub of_pair : Text → Text → CreditBalance → Bool
of_pair viewer_id streamer_id b = same b.viewer_id viewer_id && same b.streamer_id streamer_id

abbrev pub has_viewer : Text → Db → Bool
has_viewer id db = exists (λ (v : Viewer). same v.id id) db.viewers

abbrev pub has_streamer : Text → Db → Bool
has_streamer id db = exists (λ (s : Streamer). same s.id id) db.streamers

-- `INSERT INTO bits_events`: the message id is the primary key.
unfoldable pub insert_bits_event : Text → ℕ → Db → Result (Unit {0} × Db)
insert_bits_event msg_id now db =
    if exists (λ (e : BitsEvent). same e.message_id msg_id) db.bits_events
    then err unique_violation
    else ok (
      tt,
      record db {
        bits_events = db.bits_events ++ record { message_id = msg_id; received_at = now } ∷ [];
      },
    )

abbrev renamed : Text → Text → Viewer → Viewer
renamed login display_name v = record v { login = login; display_name = display_name }

-- `INSERT INTO viewers … ON CONFLICT(id) DO UPDATE`
unfoldable pub upsert_event_viewer : Text → Text → Text → ℕ → Db → Result (Unit {0} × Db)
upsert_event_viewer id login display_name now db =
    if has_viewer id db
    then ok (
      tt,
      record db {
        viewers = update (λ (v : Viewer). same v.id id) (renamed login display_name) db.viewers;
      },
    )
    else ok (
      tt,
      record db {
        viewers =
            db.viewers
            ++ record {
              id = id;
              login = login;
              display_name = display_name;
              created_at = now;
              last_seen_at = now;
            }
              ∷ [];
      },
    )

abbrev credited : ℤ → ℕ → CreditBalance → CreditBalance
credited amount now b = record b { credits = b.credits +ℤ amount; updated_at = now }

-- `INSERT INTO credit_balances … ON CONFLICT(viewer_id, streamer_id) DO UPDATE`: a new row needs its
-- viewer and its streamer.
unfoldable pub add_credits : Text → Text → ℤ → ℕ → Db → Result (Unit {0} × Db)
add_credits viewer_id streamer_id amount now db =
    if exists (of_pair viewer_id streamer_id) db.credit_balances
    then ok (
      tt,
      record db {
        credit_balances =
            update (of_pair viewer_id streamer_id) (credited amount now) db.credit_balances;
      },
    )
    else if has_viewer viewer_id db && has_streamer streamer_id db
    then ok (
      tt,
      record db {
        credit_balances =
            db.credit_balances
            ++ record {
              viewer_id = viewer_id;
              streamer_id = streamer_id;
              credits = amount;
              updated_at = now;
            }
              ∷ [];
      },
    )
    else err foreign_key

unfoldable pub append_ledger : LedgerEntry → Db → Result (Unit {0} × Db)
append_ledger entry db =
    if exists (λ (e : LedgerEntry). same e.id entry.id) db.credit_ledger
    then err unique_violation
    else ok (tt, record db { credit_ledger = db.credit_ledger ++ entry ∷ [] })

unfoldable pub insert_ledger : Rng → Text → Text → ℤ → Reason → Text → ℕ → Sql (Unit {0})
insert_ledger rng viewer_id streamer_id delta reason ref now = exec (
    append_ledger (record {
      id = rand_token 16 rng;
      viewer_id = viewer_id;
      streamer_id = streamer_id;
      delta = delta;
      reason = reason;
      ref = ref;
      created_at = now;
    }))

-- Can the pair pay?
abbrev pub affords : Text → Text → ℤ → CreditBalance → Bool
affords viewer_id streamer_id cost b = of_pair viewer_id streamer_id b && leb_ℤ cost b.credits

abbrev charged : ℤ → ℕ → CreditBalance → CreditBalance
charged cost now b = record b { credits = b.credits -ℤ cost; updated_at = now }

-- The conditional `UPDATE credit_balances` and the number of the rows that it changed.
unfoldable pub deduct : Text → Text → ℤ → ℕ → Db → Result (ℕ × Db)
deduct viewer_id streamer_id cost now db = ok (
  count_where (affords viewer_id streamer_id cost) db.credit_balances,
  record db {
    credit_balances =
        update (affords viewer_id streamer_id cost) (charged cost now) db.credit_balances;
  },
)

abbrev credits_of : Option CreditBalance → Option ℤ
credits_of none = none
credits_of (some b) = some b.credits

-- `SELECT credits FROM credit_balances`
unfoldable pub select_credits : Text → Text → Db → Option ℤ
select_credits viewer_id streamer_id db =
    credits_of (select (of_pair viewer_id streamer_id) db.credit_balances)

-- The arguments of a cheer.
pub record Cheer : Type 0 where
  pub msg_id : Text
  pub viewer_id : Text
  pub login : Text
  pub display_name : Text
  pub streamer_id : Text
  pub bits : ℤ

-- The part of the transaction behind the insert of the message id.
credit_new : Rng → ℕ → Cheer → Sql Bool
unfolding insert_ledger exec commit
credit_new rng now c = do
  exec (upsert_event_viewer c.viewer_id c.login c.display_name now)
  exec (add_credits c.viewer_id c.streamer_id c.bits now)
  insert_ledger rng c.viewer_id c.streamer_id c.bits Reason.cheer c.msg_id now
  commit
  pure true

-- A repeated message id ends the transaction with nothing credited.
after_event : Rng → ℕ → Cheer → Result (Unit {0}) → Sql Bool
unfolding credit_new
after_event rng now c (ok _) = credit_new rng now c
after_event rng now c (err unique_violation) = pure false
after_event rng now c (err e) = raise e

-- The transaction behind its `Begin`.
crediting : Rng → ℕ → ℕ → Cheer → Sql Bool
unfolding after_event exec deferring_rollback
crediting rng received now c = deferring_rollback (do
  inserted ← attempt (exec (insert_bits_event c.msg_id received))
  after_event rng now c inserted)

unfoldable pub credit_bits : Rng → ℕ → ℕ → Cheer → Sql Bool
unfolding crediting begin
credit_bits rng received now c =
    if leb_ℤ c.bits (pos 0) then pure false else begin >> crediting rng received now c

or_zero : Result ℤ → ℤ
or_zero (ok b) = b
or_zero (err e) = pos 0

-- `affected != 1`: the balance is read, 0 if the read fails.
short_of_credits : Text → Text → Sql (ℤ × Bool)
unfolding query_row or_zero
short_of_credits viewer_id streamer_id = do
  bal ← attempt (query_row (select_credits viewer_id streamer_id))
  pure (or_zero bal, false)

-- The entry of a spending; a free clip leaves none.
ledger_spending : Rng → ℕ → Text → Text → ℤ → Text → Sql (Unit {0})
unfolding insert_ledger exec
ledger_spending rng now viewer_id streamer_id cost ref =
    if ltb_ℤ (pos 0) cost
    then insert_ledger rng viewer_id streamer_id (pos 0 -ℤ cost) Reason.submit ref now
    else pure tt

spent : Rng → ℕ → Text → Text → ℤ → Text → Sql (ℤ × Bool)
unfolding ledger_spending query_row commit
spent rng now viewer_id streamer_id cost ref = do
  ledger_spending rng now viewer_id streamer_id cost ref
  bal ← query_row (select_credits viewer_id streamer_id)
  commit
  pure (bal, true)

after_update : Rng → ℕ → Text → Text → ℤ → Text → ℕ → Sql (ℤ × Bool)
unfolding spent short_of_credits
after_update rng now viewer_id streamer_id cost ref affected =
    if affected == 1
    then spent rng now viewer_id streamer_id cost ref
    else short_of_credits viewer_id streamer_id

-- The new balance and `ok`.
unfoldable pub spend_credits : Rng → ℕ → ℕ → Text → Text → ℤ → Text → Sql (ℤ × Bool)
unfolding after_update begin exec rows_affected deferring_rollback
spend_credits rng updated now viewer_id streamer_id cost ref =
    if ltb_ℤ cost (pos 0) then raise negative_cost else do
      begin
      deferring_rollback (do
        res ← exec (deduct viewer_id streamer_id cost updated)
        affected ← rows_affected res
        after_update rng now viewer_id streamer_id cost ref affected)

no_rows_zero : Result ℤ → Sql ℤ
no_rows_zero (ok b) = pure b
no_rows_zero (err not_found) = pure (pos 0)
no_rows_zero (err e) = raise e

unfoldable pub balance : Text → Text → Sql ℤ
unfolding no_rows_zero query_row
balance viewer_id streamer_id = do
  bal ← attempt (query_row (select_credits viewer_id streamer_id))
  no_rows_zero bal

unfoldable pub grant_credits : Rng → ℕ → Text → Text → ℤ → Sql (Unit {0})
unfolding insert_ledger begin exec commit deferring_rollback
grant_credits rng now viewer_id streamer_id amount = if leb_ℤ amount (pos 0) then pure tt else do
  begin
  deferring_rollback (do
    exec (add_credits viewer_id streamer_id amount now)
    insert_ledger rng viewer_id streamer_id amount Reason.dev_grant [] now
    commit)
