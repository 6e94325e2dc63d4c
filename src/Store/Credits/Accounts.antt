-- ===== src/Store/Credits/Accounts.antt =====
-- The operations on the credits, called in any order and with any failures of the database.
use media_share.Prelude.{
  ℕ, ◌≡◌, refl, ◌⊎◌, inl, inr, Bool, true, false, Option, none, List, [], ◌∷◌, Text, arith,
  Bool-cases,
}
use media_share.Prelude.Int.{ℤ, pos, ◌-ℤ◌, ltb_ℤ, leb_ℤ}
use media_share.Random.{Rng}
use media_share.Store.Db.{Db, Result, ok, err, World, Reason}
use media_share.Store.Credits.{Cheer, deduct, credit_bits, spend_credits, grant_credits, balance}
use media_share.Store.Db.Transactions.{AllOrNothing}
use media_share.Store.Credits.Atomic.{entry_of, credit_bits_atomic}
use media_share.Store.Credits.Payments.{
  Granted, Spent, spend_effect, payable, grant_credits_atomic, spend_credits_atomic,
}
use media_share.Store.Credits.Audit.{
  IsAudited, cheer_effect-IsAudited, earn-IsAudited, pay-IsAudited, free-IsAudited, then_db-eq-ok,
}

-- A call of an operation, with the random bytes and the times that it reads.
pub data CreditOp : Type 0 where
  cheer : Rng → ℕ → ℕ → Cheer → CreditOp
  spend : Rng → ℕ → ℕ → Text → Text → ℤ → Text → CreditOp
  grant : Rng → ℕ → Text → Text → ℤ → CreditOp
  check_balance : Text → Text → CreditOp

unfoldable pub perform : CreditOp → World → World
perform (cheer rng received now c) w = (credit_bits rng received now c w).1
perform (spend rng updated now v s cost ref) w = (spend_credits rng updated now v s cost ref w).1
perform (grant rng now v s amount) w = (grant_credits rng now v s amount w).1
perform (check_balance v s) w = (balance v s w).1

unfoldable pub perform_all : List CreditOp → World → World
perform_all [] w = w
perform_all (op ∷ ops) w = perform_all ops (perform op w)

-- Between two calls: the accounts are right and no transaction is open.
pub record IsSettled (w : World) : Type 0 where
  pub audited : IsAudited w.db
  pub idle : w.saved ≡ none

pub AllOrNothing-cases :
    (effect : Db → Result (Unit {0} × Db)) (r : Result Bool) (d d' : Db)
    → AllOrNothing effect r d d'
    → (d' ≡ d) ⊎ (effect d ≡ ok (tt, d'))
AllOrNothing-cases effect (ok true) d d' h = inr h
AllOrNothing-cases effect (ok false) d d' h = inl h
AllOrNothing-cases effect (err e) d d' h = inl h

pub Granted-cases :
    (effect : Db → Result (Unit {0} × Db)) (b : Bool) (r : Result (Unit {0})) (d d' : Db)
    → Granted effect b r d d'
    → (d' ≡ d) ⊎ ((b ≡ false) × (effect d ≡ ok (tt, d')))
Granted-cases effect false (ok u) d d' h = inr (refl, h)
Granted-cases effect true (ok u) d d' h = inl h
Granted-cases effect false (err e) d d' h = inl h
Granted-cases effect true (err e) d d' h = inl h

pub Spent-cases :
    (effect : Db → Result (Unit {0} × Db)) (read : Db → Option ℤ) (n : ℕ) (r : Result (ℤ × Bool))
    (d d' : Db)
    → Spent effect read n r d d'
    → (d' ≡ d) ⊎ ((n ≡ 1) × (effect d ≡ ok (tt, d')))
Spent-cases effect read n (ok (b, true)) d d' h = inr (h.2, h.0)
Spent-cases effect read n (ok (b, false)) d d' h = inl h.0
Spent-cases effect read n (err e) d d' h = inl h

kept : (d d' : Db) → d' ≡ d → IsAudited d → IsAudited d'
kept d d' e a = rw e a

cheer-IsSettled :
    (rng : Rng) (received now : ℕ) (c : Cheer) (w : World)
    → IsSettled w
    → IsSettled (credit_bits rng received now c w).1
cheer-IsSettled rng received now c w h =
    let atomic = credit_bits_atomic rng received now c w h.idle in
    record {
      audited = elim (Bool-cases (leb_ℤ c.bits (pos 0))) [
        | inl nothing ↦ kept w.db _ (free_cheer nothing) h.audited
        | inr paid ↦ elim (AllOrNothing-cases _ _ w.db _ atomic.0) [
          | inl unchanged ↦ kept w.db _ unchanged h.audited
          | inr changed ↦
              cheer_effect-IsAudited rng received now c w.db _ (ground arith) changed h.audited
        ]
      ];
      idle = atomic.1;
    }
  where
    free_cheer : leb_ℤ c.bits (pos 0) ≡ true → (credit_bits rng received now c w).1.db ≡ w.db
    free_cheer e = unfold credit_bits in rw e

grant-IsSettled :
    (rng : Rng) (now : ℕ) (v s : Text) (amount : ℤ) (w : World)
    → IsSettled w
    → IsSettled (grant_credits rng now v s amount w).1
grant-IsSettled rng now v s amount w h =
    let atomic = grant_credits_atomic rng now v s amount w h.idle in
    record {
      audited = elim (Granted-cases _ _ _ w.db _ atomic.0) [
        | inl unchanged ↦ kept w.db _ unchanged h.audited
        | inr (due, changed) ↦
            let (d1, h1, h2) = then_db-eq-ok _ _ _ changed in
            earn-IsAudited (entry_of rng v s amount Reason.dev_grant [] now) now w.db d1 _
              (ground arith) h1 h2 h.audited
      ];
      idle = atomic.1;
    }

spend_effect-IsAudited :
    (rng : Rng) (updated now : ℕ) (v s : Text) (cost : ℤ) (ref : Text) (d d' : Db)
    → ltb_ℤ cost (pos 0) ≡ false
    → payable v s cost updated d ≡ 1
    → spend_effect rng updated now v s cost ref d ≡ ok (tt, d')
    → IsAudited d
    → IsAudited d'
unfolding deduct
spend_effect-IsAudited rng updated now v s cost ref d d' p one h a =
    elim (Bool-cases (ltb_ℤ (pos 0) cost)) [
      | inl paid ↦
          pay-IsAudited (entry_of rng v s (pos 0 -ℤ cost) Reason.submit ref now) cost updated _ d _
            d' refl refl one (rw paid at h) a
      | inr free ↦
          let h' = rw free at h in
          free-IsAudited v s cost updated _ d d' p free (ground arith) one a
    ]

spend-IsSettled :
    (rng : Rng) (updated now : ℕ) (v s : Text) (cost : ℤ) (ref : Text) (w : World)
    → IsSettled w
    → IsSettled (spend_credits rng updated now v s cost ref w).1
spend-IsSettled rng updated now v s cost ref w h =
    let atomic = spend_credits_atomic rng updated now v s cost ref w h.idle in
    record {
      audited = elim (Bool-cases (ltb_ℤ cost (pos 0))) [
        | inl negative ↦ kept w.db _ (refused negative) h.audited
        | inr payable_cost ↦ elim (Spent-cases _ _ _ _ w.db _ atomic.0) [
          | inl unchanged ↦ kept w.db _ unchanged h.audited
          | inr (one, changed) ↦
              spend_effect-IsAudited rng updated now v s cost ref w.db _ payable_cost one changed
                h.audited
        ]
      ];
      idle = atomic.1;
    }
  where
    refused : ltb_ℤ cost (pos 0) ≡ true → (spend_credits rng updated now v s cost ref w).1.db ≡ w.db
    refused e = unfold spend_credits in rw e

balance-IsSettled : (v s : Text) (w : World) → IsSettled w → IsSettled (balance v s w).1
unfolding balance
balance-IsSettled v s w h = record {
  audited = kept w.db _ (ground arith) h.audited;
  idle = ground (arith, h.idle);
}

pub perform-IsSettled : (op : CreditOp) (w : World) → IsSettled w → IsSettled (perform op w)
unfolding perform
perform-IsSettled (CreditOp.cheer rng received now c) w h = cheer-IsSettled rng received now c w h
perform-IsSettled (CreditOp.spend rng updated now v s cost ref) w h =
    spend-IsSettled rng updated now v s cost ref w h
perform-IsSettled (CreditOp.grant rng now v s amount) w h = grant-IsSettled rng now v s amount w h
perform-IsSettled (CreditOp.check_balance v s) w h = balance-IsSettled v s w h

-- From settled accounts, whatever operations are called and whichever calls of the database fail: every
-- balance is the sum of the ledger's deltas of its pair, none is negative, each pair has at most one,
-- and no transaction stays open.
pub perform_all-IsSettled :
    (ops : List CreditOp) (w : World) → IsSettled w → IsSettled (perform_all ops w)
unfolding perform_all
perform_all-IsSettled [] w h = h
perform_all-IsSettled (op ∷ ops) w h =
    perform_all-IsSettled ops (perform op w) (perform-IsSettled op w h)
