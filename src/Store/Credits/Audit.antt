-- ===== src/Store/Credits/Audit.antt =====
-- The ledger and the balances.
use media_share.Prelude.{
  ℕ, ◌≡◌, refl, false, ◌&&◌, List, [], ◌∷◌, ◌++◌, Text, same, arith, if◌then◌else◌, All,
}
use media_share.Prelude.Int.{ℤ, pos, ◌+ℤ◌, ◌-ℤ◌, ◌≤ℤ◌, ltb_ℤ, int_laws, +ℤ_assoc, zero_comm}
use media_share.Random.{Rng}
use media_share.Store.Db.{Db, Result, ok, err, LedgerEntry, Reason}
use media_share.Store.Credits.{
  Cheer, insert_bits_event, upsert_event_viewer, add_credits, append_ledger, deduct, select_credits,
}
use media_share.Store.Db.Transactions.{then_db}
use media_share.Store.Credits.Atomic.{entry_of, cheer_effect}
use media_share.Store.Credits.Balances.{
  credits_in, UniquePairs, NonNegative, credits-add_credits, credits-deduct,
}
use media_share.Store.Credits.Rows.{
  add_credits-UniquePairs, deduct-UniquePairs, add_credits-NonNegative, deduct-NonNegative,
}

-- The sum of the deltas of a pair.
abbrev pub ledger_sum : Text → Text → List LedgerEntry → ℤ
ledger_sum v s [] = pos 0
ledger_sum v s (e ∷ l) =
    let rest = ledger_sum v s l in
    if same e.viewer_id v && same e.streamer_id s then e.delta +ℤ rest else rest

pub record IsAudited (d : Db) : Type 0 where
  pub unique : UniquePairs d.credit_balances
  pub non_negative : All NonNegative d.credit_balances
  pub balanced : (v s : Text) → credits_in v s d ≡ ledger_sum v s d.credit_ledger

ledger_sum-append :
    (v s : Text) (l : List LedgerEntry) (e : LedgerEntry)
    → ledger_sum v s (l ++ e ∷ []) ≡ (
        if same e.viewer_id v && same e.streamer_id s
        then ledger_sum v s l +ℤ e.delta
        else ledger_sum v s l)
ledger_sum-append v s [] e = ground (arith, zero_comm e.delta)
ledger_sum-append v s (x ∷ l) e =
    ground (arith, ledger_sum-append v s l e, +ℤ_assoc x.delta (ledger_sum v s l) e.delta)

-- The insert into the ledger adds its entry and touches no balance.
pub append_ledger_frame :
    (e : LedgerEntry) (d d' : Db)
    → append_ledger e d ≡ ok (tt, d')
    → (d'.credit_ledger ≡ d.credit_ledger ++ e ∷ []) × (d'.credit_balances ≡ d.credit_balances)
unfolding append_ledger
append_ledger_frame e d d' h = ground arith

add_credits_frame :
    (v s : Text) (amount : ℤ) (now : ℕ) (d d' : Db)
    → add_credits v s amount now d ≡ ok (tt, d')
    → d'.credit_ledger ≡ d.credit_ledger
unfolding add_credits
add_credits_frame v s amount now d d' h = ground arith

-- Adding an amount to a balance and to the ledger keeps the accounts.
pub earn-IsAudited :
    (e : LedgerEntry) (now : ℕ) (d d1 d2 : Db)
    → pos 0 ≤ℤ e.delta
    → add_credits e.viewer_id e.streamer_id e.delta now d ≡ ok (tt, d1)
    → append_ledger e d1 ≡ ok (tt, d2)
    → IsAudited d
    → IsAudited d2
unfolding select_credits
earn-IsAudited e now d d1 d2 p h1 h2 a =
    let (ledger, balances) = append_ledger_frame e d1 d2 h2 in
    let kept = add_credits_frame e.viewer_id e.streamer_id e.delta now d d1 h1 in
    record {
      unique = rw balances (add_credits-UniquePairs _ _ _ now d d1 h1 a.unique);
      non_negative = rw balances (add_credits-NonNegative _ _ _ now d d1 h1 p a.non_negative);
      balanced = λ v s. ground (
        arith,
        ledger,
        balances,
        kept,
        credits-add_credits e.viewer_id e.streamer_id v s e.delta now d d1 h1,
        ledger_sum-append v s d.credit_ledger e,
        a.balanced v s,
      );
    }

-- The statements of a cheer that touch neither the balances nor the ledger.
event_frame :
    (msg : Text) (now : ℕ) (d d' : Db)
    → insert_bits_event msg now d ≡ ok (tt, d')
    → (d'.credit_ledger ≡ d.credit_ledger) × (d'.credit_balances ≡ d.credit_balances)
unfolding insert_bits_event
event_frame msg now d d' h = ground arith

viewer_frame :
    (id login name : Text) (now : ℕ) (d d' : Db)
    → upsert_event_viewer id login name now d ≡ ok (tt, d')
    → (d'.credit_ledger ≡ d.credit_ledger) × (d'.credit_balances ≡ d.credit_balances)
unfolding upsert_event_viewer
viewer_frame id login name now d d' h = ground arith

pub same_credits-IsAudited :
    (d d' : Db)
    → d'.credit_ledger ≡ d.credit_ledger
    → d'.credit_balances ≡ d.credit_balances
    → IsAudited d
    → IsAudited d'
unfolding select_credits
same_credits-IsAudited d d' ledger balances a = record {
  unique = rw balances a.unique;
  non_negative = rw balances a.non_negative;
  balanced = λ v s. rw (ledger, balances) (a.balanced v s);
}

-- Inversion of a chain of statements.
pub then_db-eq-ok :
    (r : Result (Unit {0} × Db)) (f : Db → Result (Unit {0} × Db)) (d' : Db)
    → then_db r f ≡ ok (tt, d')
    → (d : Db) × (r ≡ ok (tt, d)) × (f d ≡ ok (tt, d'))
then_db-eq-ok (ok (u, d)) f d' h = (d, refl, h)
then_db-eq-ok (err e) f d' h = cc

pub cheer_effect-IsAudited :
    (rng : Rng) (received now : ℕ) (c : Cheer) (d d' : Db)
    → pos 0 ≤ℤ c.bits
    → cheer_effect rng received now c d ≡ ok (tt, d')
    → IsAudited d
    → IsAudited d'
cheer_effect-IsAudited rng received now c d d' p h a =
    let (d3, h3, h4) = then_db-eq-ok _ _ d' h in
    let (d2, h2, h3') = then_db-eq-ok _ _ d3 h3 in
    let (d1, h1, h2') = then_db-eq-ok _ _ d2 h2 in
    let f1 = event_frame c.msg_id received d d1 h1 in
    let f2 = viewer_frame c.viewer_id c.login c.display_name now d1 d2 h2' in
    earn-IsAudited (entry_of rng c.viewer_id c.streamer_id c.bits Reason.cheer c.msg_id now) now d2
      d3 d' p h3' h4
      (same_credits-IsAudited d1 d2 f2.0 f2.1 (same_credits-IsAudited d d1 f1.0 f1.1 a))

deduct_frame :
    (v s : Text) (cost : ℤ) (now n : ℕ) (d d' : Db)
    → deduct v s cost now d ≡ ok (n, d')
    → d'.credit_ledger ≡ d.credit_ledger
unfolding deduct
deduct_frame v s cost now n d d' h = ground arith

minus_zero : (a cost : ℤ) → ltb_ℤ cost (pos 0) ≡ false → ltb_ℤ (pos 0) cost ≡ false → a -ℤ cost ≡ a
unfolding ◌-ℤ◌
minus_zero a cost p n = ground arith

plus_negative : (a cost : ℤ) → a -ℤ cost ≡ a +ℤ (pos 0 -ℤ cost)
plus_negative a cost = omega int_laws

-- Taking an amount from a balance and from the ledger keeps the accounts.
pub pay-IsAudited :
    (e : LedgerEntry) (cost : ℤ) (now n : ℕ) (d d1 d2 : Db)
    → e.delta ≡ pos 0 -ℤ cost
    → deduct e.viewer_id e.streamer_id cost now d ≡ ok (n, d1)
    → n ≡ 1
    → append_ledger e d1 ≡ ok (tt, d2)
    → IsAudited d
    → IsAudited d2
unfolding select_credits
pay-IsAudited e cost now n d d1 d2 p h1 one h2 a =
    let (ledger, balances) = append_ledger_frame e d1 d2 h2 in
    let kept = deduct_frame e.viewer_id e.streamer_id cost now n d d1 h1 in
    record {
      unique = rw balances (deduct-UniquePairs _ _ cost now n d d1 h1 a.unique);
      non_negative = rw balances (deduct-NonNegative _ _ cost now n d d1 h1 a.non_negative);
      balanced = λ v s. ground (
        arith,
        ledger,
        balances,
        kept,
        credits-deduct e.viewer_id e.streamer_id v s cost now n d d1 a.unique h1 one,
        ledger_sum-append v s d.credit_ledger e,
        a.balanced v s,
        plus_negative (credits_in v s d) cost,
      );
    }

pub free-IsAudited :
    (v s : Text) (cost : ℤ) (now n : ℕ) (d d1 : Db)
    → ltb_ℤ cost (pos 0) ≡ false
    → ltb_ℤ (pos 0) cost ≡ false
    → deduct v s cost now d ≡ ok (n, d1)
    → n ≡ 1
    → IsAudited d
    → IsAudited d1
unfolding select_credits
free-IsAudited v s cost now n d d1 p q h one a =
    let kept = deduct_frame v s cost now n d d1 h in
    record {
      unique = deduct-UniquePairs v s cost now n d d1 h a.unique;
      non_negative = deduct-NonNegative v s cost now n d d1 h a.non_negative;
      balanced = λ v' s'. ground (
        arith,
        kept,
        credits-deduct v s v' s' cost now n d d1 a.unique h one,
        a.balanced v' s',
        minus_zero (credits_in v' s' d) cost p q,
      );
    }
