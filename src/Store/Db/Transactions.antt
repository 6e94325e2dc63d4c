-- ===== src/Store/Db/Transactions.antt =====
-- Transactions by their parts: what a call does to the tables, a sequence of them, and the end.
use media_share.Prelude.{◌≡◌, ◌∙◌, Bool, true, false, none, some, arith}
use media_share.Store.Db.{
  Db, Result, ok, err, World, Sql, pure, go_on, ◌>>◌, exec, commit, rollback, deferring_rollback,
}

-- An effect on the tables.
abbrev pub Effect : Type 0
Effect = Db → Result (Unit {0} × Db)

abbrev pub then_db : Result (Unit {0} × Db) → Effect → Result (Unit {0} × Db)
then_db (ok (_, d)) f = f d
then_db (err e) f = err e

abbrev pub after : Effect → Effect → Effect
after f g d = then_db (f d) g

abbrev pub no_effect : Effect
no_effect d = ok (tt, d)

-- A call that succeeds has had the effect; the transaction stays as it was.
abbrev pub Runs : Effect → World → Result (Unit {0}) → World → Type 0
Runs f w (ok _) w' = (f w.db ≡ ok (tt, w'.db)) × (w'.saved ≡ w.saved)
Runs f w (err e) w' = w'.saved ≡ w.saved

-- The end of a transaction: it is committed with the effect exactly if it reports `true`.
abbrev pub Ends : Effect → World → Result Bool → World → Type 0
Ends f w (ok true) w' = (f w.db ≡ ok (tt, w'.db)) × (w'.saved ≡ none)
Ends f w (ok false) w' = w'.saved ≡ w.saved
Ends f w (err e) w' = w'.saved ≡ w.saved

-- The tables after a call that reported `true`, and after any other.
abbrev pub AllOrNothing : Effect → Result Bool → Db → Db → Type 0
AllOrNothing effect (ok true) d d' = effect d ≡ ok (tt, d')
AllOrNothing effect (ok false) d d' = d' ≡ d
AllOrNothing effect (err e) d d' = d' ≡ d

pub exec-Runs : (f : Effect) (w : World) → Runs f w (exec f w).0 (exec f w).1
unfolding exec
exec-Runs f w = ground arith

pub commit-Ends :
    (w : World) → Ends no_effect w ((commit >> pure true) w).0 ((commit >> pure true) w).1
unfolding commit
commit-Ends w = ground arith

-- `v` is the state behind the first call, `w'` the one behind the rest.
pub moved-Ends :
    (f g : Effect) (w v w' : World) (r : Result Bool)
    → f w.db ≡ ok (tt, v.db)
    → v.saved ≡ w.saved
    → Ends g v r w'
    → Ends (after f g) w r w'
moved-Ends f g w v w' (ok true) e s h = (rw e h.0, h.1)
moved-Ends f g w v w' (ok false) e s h = h ∙ s
moved-Ends f g w v w' (err x) e s h = h ∙ s

gone_on-Ends :
    (f g : Effect) (n : Sql Bool) (w v : World) (r : Result (Unit {0}))
    → Runs f w r v
    → ((u : World) → Ends g u (n u).0 (n u).1)
    → Ends (after f g) w (go_on (r, v) (λ _. n)).0 (go_on (r, v) (λ _. n)).1
gone_on-Ends f g n w v (ok _) h rest = moved-Ends f g w v _ _ h.0 h.1 (rest v)
gone_on-Ends f g n w v (err x) h rest = h

then-Ends :
    (f g : Effect) (m : Sql (Unit {0})) (n : Sql Bool) (w : World)
    → Runs f w (m w).0 (m w).1
    → ((u : World) → Ends g u (n u).0 (n u).1)
    → Ends (after f g) w ((m >> n) w).0 ((m >> n) w).1
then-Ends f g m n w h rest = gone_on-Ends f g n w (m w).1 (m w).0 h rest

pub exec-then-Ends :
    (f g : Effect) (n : Sql Bool) (w : World)
    → ((u : World) → Ends g u (n u).0 (n u).1)
    → Ends (after f g) w ((exec f >> n) w).0 ((exec f >> n) w).1
exec-then-Ends f g n w rest = then-Ends f g (exec f) n w (exec-Runs f w) rest

rolled-AllOrNothing :
    (f : Effect) (w w' : World) (r : Result Bool)
    → w.saved ≡ some w.db
    → Ends f w r w'
    → AllOrNothing f r w.db (rollback w'.saved w').db × ((rollback w'.saved w').saved ≡ none)
rolled-AllOrNothing f w w' (ok true) begun h = ground (arith, h)
rolled-AllOrNothing f w w' (ok false) begun h = ground (arith, h)
rolled-AllOrNothing f w w' (err x) begun h = ground (arith, h)

-- Behind the deferred rollback a transaction is all or nothing.
pub deferring_rollback-AllOrNothing :
    (f : Effect) (m : Sql Bool) (w : World)
    → w.saved ≡ some w.db
    → Ends f w (m w).0 (m w).1
    → AllOrNothing f (deferring_rollback m w).0 w.db (deferring_rollback m w).1.db
      × ((deferring_rollback m w).1.saved ≡ none)
unfolding deferring_rollback
deferring_rollback-AllOrNothing f m w begun h = rolled-AllOrNothing f w (m w).1 (m w).0 begun h
