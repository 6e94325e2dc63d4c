-- ===== src/Store/Db.antt =====
-- The tables of internal/store/store.go (`migrate`), the errors, and the calls of database/sql as
-- actions: `Exec`, `QueryRow`, `Begin`, `Commit` and the deferred `Rollback`.
pub mod Transactions
pub mod Parts
use media_share.Prelude.{ℕ, ◌+◌, Bool, false, Option, none, some, List, [], Text, if◌then◌else◌}
use media_share.Prelude.Int.{ℤ}

pub data Role : Type 0 where
  owner moderator : Role

pub data Reason : Type 0 where
  cheer submit dev_grant : Reason

-- Times are Unix seconds.
pub record Streamer : Type 0 where
  pub id : Text
  pub login : Text
  pub display_name : Text
  pub player_key : Text
  pub created_at : ℕ
  pub last_login_at : ℕ

pub record AuthSession : Type 0 where
  pub id : Text
  pub streamer_id : Text
  pub role : Role
  pub created_at : ℕ
  pub expires_at : ℕ

pub record ModeratorLink : Type 0 where
  pub token : Text
  pub streamer_id : Text
  pub created_at : ℕ

pub record Viewer : Type 0 where
  pub id : Text
  pub login : Text
  pub display_name : Text
  pub created_at : ℕ
  pub last_seen_at : ℕ

pub record ViewerSession : Type 0 where
  pub id : Text
  pub viewer_id : Text
  pub created_at : ℕ
  pub expires_at : ℕ

pub record CreditBalance : Type 0 where
  pub viewer_id : Text
  pub streamer_id : Text
  pub credits : ℤ
  pub updated_at : ℕ

pub record BitsEvent : Type 0 where
  pub message_id : Text
  pub received_at : ℕ

pub record LedgerEntry : Type 0 where
  pub id : Text
  pub viewer_id : Text
  pub streamer_id : Text
  pub delta : ℤ
  pub reason : Reason
  pub ref : Text
  pub created_at : ℕ

pub record Db : Type 0 where
  pub streamers : List Streamer
  pub auth_sessions : List AuthSession
  pub moderator_links : List ModeratorLink
  pub viewers : List Viewer
  pub viewer_sessions : List ViewerSession
  pub credit_balances : List CreditBalance
  pub bits_events : List BitsEvent
  pub credit_ledger : List LedgerEntry

abbrev pub empty_db : Db
empty_db = record {
  streamers = [];
  auth_sessions = [];
  moderator_links = [];
  viewers = [];
  viewer_sessions = [];
  credit_balances = [];
  bits_events = [];
  credit_ledger = [];
}

-- `failure` is any error of the database that is no broken constraint.
pub data Error : Type 0 where
  not_found failure unique_violation foreign_key negative_cost : Error
  -- of internal/auth and of the Twitch client
  unauthenticated exchange_failed : Error

pub data Result (A : Type 0) : Type 0 where
  ok : A → Result A
  err : Error → Result A

-- The database, what an open transaction goes back to, and which of the calls fail: call number n
-- fails if `faults n` is true. A failing call changes no table.
pub record World : Type 0 where
  pub db : Db
  pub saved : Option Db
  pub calls : ℕ
  pub faults : ℕ → Bool

-- A database none of whose calls fails, with no transaction open.
abbrev pub calm : Db → World
calm d = record { db = d; saved = none; calls = 0; faults = λ _. false }

abbrev pub Sql : Type 0 → Type 0
Sql A = World → Result A × World

abbrev pub tick : World → World
tick w = record w { calls = w.calls + 1 }

abbrev pub pure : {A : Type 0} → A → Sql A
pure a w = (ok a, w)

abbrev pub raise : {A : Type 0} → Error → Sql A
raise e w = (err e, w)

abbrev go_on : {A B : Type 0} → Result A × World → (A → Sql B) → Result B × World
go_on (ok a, w) k = k a w
go_on (err e, w) k = (err e, w)

-- `if err != nil { return err }` behind a call
infixl 5 ◌>>=◌ ◌>>◌
abbrev pub ◌>>=◌ : {A B : Type 0} → Sql A → (A → Sql B) → Sql B
◌>>=◌ m k w = go_on (m w) k

abbrev pub ◌>>◌ : {A B : Type 0} → Sql A → Sql B → Sql B
m >> n = m >>= λ _. n

-- The call's error, as a value.
abbrev pub attempt : {A : Type 0} → Sql A → Sql (Result A)
attempt m w = let (r, w') = m w in (ok r, w')

abbrev applied : {A : Type 0} → Result (A × Db) → World → Result A × World
applied (ok (a, d)) w = (ok a, record w { db = d })
applied (err e) w = (err e, w)

-- A statement that writes, with what it reports.
unfoldable pub exec : {A : Type 0} → (Db → Result (A × Db)) → Sql A
exec f w = if w.faults w.calls then (err failure, tick w) else applied (f w.db) (tick w)

abbrev scanned : {A : Type 0} → Option A → Result A
scanned none = err not_found
scanned (some a) = ok a

-- `QueryRow(…).Scan(…)`; `not_found` stands for sql.ErrNoRows.
unfoldable pub query_row : {A : Type 0} → (Db → Option A) → Sql A
query_row f w = if w.faults w.calls then (err failure, tick w) else (scanned (f w.db), tick w)

-- `RowsAffected`
unfoldable pub rows_affected : ℕ → Sql ℕ
rows_affected n w = if w.faults w.calls then (err failure, tick w) else (ok n, tick w)

unfoldable pub begin : Sql (Unit {0})
begin w =
    if w.faults w.calls
    then (err failure, tick w)
    else (ok tt, record (tick w) { saved = some w.db })

-- A commit that fails leaves the tables that were saved. The `Rollback` of database/sql does nothing behind
-- it (ErrTxDone): that its statements are undone is left to SQLite, and the model takes it to do so in
-- `deferring_rollback`.
unfoldable pub commit : Sql (Unit {0})
commit w =
    if w.faults w.calls then (err failure, tick w) else (ok tt, record (tick w) { saved = none })

-- `tx.Rollback()`, which does nothing behind a commit.
abbrev rollback : Option Db → World → World
rollback none w = w
rollback (some d) w = record w { db = d; saved = none }

-- A function body with `defer tx.Rollback()`.
unfoldable pub deferring_rollback : {A : Type 0} → Sql A → Sql A
deferring_rollback m w = let (r, w') = m w in (r, rollback w'.saved w')
