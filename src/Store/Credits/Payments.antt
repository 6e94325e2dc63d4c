-- ===== src/Store/Credits/Payments.antt =====
-- The grants and the spendings, whichever calls of the database fail.
use media_share.Prelude.{
  ℕ, ◌≡◌, ◌≢◌, refl, Bool, true, false, Option, none, some, [], Text, arith, if◌then◌else◌,
  Bool-cases, inl, inr,
}
use media_share.Prelude.Int.{ℤ, pos, ◌-ℤ◌, leb_ℤ, ltb_ℤ}
use media_share.Random.{Rng}
use media_share.Store.Db.{Db, Result, ok, err, World, Reason}
use media_share.Store.Db.Transactions.{then_db}
use media_share.Store.Credits.{
  add_credits, append_ledger, deduct, select_credits, spend_credits, grant_credits,
}
use media_share.Store.Credits.Atomic.{entry_of}

-- What a grant does to the tables.
abbrev pub grant_effect : Rng → ℕ → Text → Text → ℤ → Db → Result (Unit {0} × Db)
grant_effect rng now viewer_id streamer_id amount d =
    then_db (add_credits viewer_id streamer_id amount now d)
      (append_ledger (entry_of rng viewer_id streamer_id amount Reason.dev_grant [] now))

-- The tables after a grant: an amount that is not positive grants nothing.
abbrev pub Granted : (Db → Result (Unit {0} × Db)) → Bool → Result (Unit {0}) → Db → Db → Type 0
Granted effect false (ok _) d d' = effect d ≡ ok (tt, d')
Granted effect true (ok _) d d' = d' ≡ d
Granted effect b (err e) d d' = d' ≡ d

-- A grant is made whole or leaves every table as it was, and no transaction stays open.
pub grant_credits_atomic :
    (rng : Rng) (now : ℕ) (viewer_id streamer_id : Text) (amount : ℤ) (w : World)
    → w.saved ≡ none
    → Granted
        (grant_effect rng now viewer_id streamer_id amount)
        (leb_ℤ amount (pos 0))
        (grant_credits rng now viewer_id streamer_id amount w).0
        w.db
        (grant_credits rng now viewer_id streamer_id amount w).1.db
      × ((grant_credits rng now viewer_id streamer_id amount w).1.saved ≡ none)
unfolding grant_credits
grant_credits_atomic rng now viewer_id streamer_id amount w idle =
    elim (Bool-cases (leb_ℤ amount (pos 0))) [
      | inl none_due ↦ rw none_due (refl, idle)
      | inr due ↦ rw due (ground arith, ground arith)
    ]

-- The entry of a spending, which a free clip does not leave.
abbrev pub spending_entry : Rng → ℕ → Text → Text → ℤ → Text → Db → Result (Unit {0} × Db)
spending_entry rng now viewer_id streamer_id cost ref d =
    if ltb_ℤ (pos 0) cost
    then append_ledger (entry_of rng viewer_id streamer_id (pos 0 -ℤ cost) Reason.submit ref now) d
    else ok (tt, d)

abbrev pub rows_of : Result (ℕ × Db) → ℕ
rows_of (ok (n, d)) = n
rows_of (err e) = 0

abbrev pub db_of : Result (ℕ × Db) → Result (Unit {0} × Db)
db_of (ok (n, d)) = ok (tt, d)
db_of (err e) = err e

-- What a spending does to the tables.
abbrev pub spend_effect : Rng → ℕ → ℕ → Text → Text → ℤ → Text → Db → Result (Unit {0} × Db)
spend_effect rng updated now viewer_id streamer_id cost ref d =
    then_db (db_of (deduct viewer_id streamer_id cost updated d))
      (spending_entry rng now viewer_id streamer_id cost ref)

-- How many balances a spending would change.
abbrev pub payable : Text → Text → ℤ → ℕ → Db → ℕ
payable viewer_id streamer_id cost updated d = rows_of (deduct viewer_id streamer_id cost updated d)

-- The tables after a spending, by its result.
abbrev pub Spent :
    (Db → Result (Unit {0} × Db)) → (Db → Option ℤ) → ℕ → Result (ℤ × Bool) → Db → Db → Type 0
Spent effect read n (ok (b, true)) d d' = (effect d ≡ ok (tt, d')) × (read d' ≡ some b) × (n ≡ 1)
Spent effect read n (ok (b, false)) d d' = (d' ≡ d) × (n ≢ 1)
Spent effect read n (err e) d d' = d' ≡ d

-- A spending takes its whole effect on exactly one balance and reports the balance that it leaves, or
-- it changes no table; and no transaction stays open.
pub spend_credits_atomic :
    (rng : Rng) (updated now : ℕ) (viewer_id streamer_id : Text) (cost : ℤ) (ref : Text) (w : World)
    → w.saved ≡ none
    → Spent
        (spend_effect rng updated now viewer_id streamer_id cost ref)
        (select_credits viewer_id streamer_id)
        (payable viewer_id streamer_id cost updated w.db)
        (spend_credits rng updated now viewer_id streamer_id cost ref w).0
        w.db
        (spend_credits rng updated now viewer_id streamer_id cost ref w).1.db
      × ((spend_credits rng updated now viewer_id streamer_id cost ref w).1.saved ≡ none)
unfolding spend_credits
spend_credits_atomic rng updated now viewer_id streamer_id cost ref w idle =
    (ground arith, ground arith)
