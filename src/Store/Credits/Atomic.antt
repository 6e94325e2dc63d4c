-- ===== src/Store/Credits/Atomic.antt =====
-- The transaction of a cheer, whichever calls of the database fail.
use media_share.Prelude.{
  ℕ, ◌≡◌, refl, sym, ◌∙◌, Bool, true, false, none, some, Text, Bool-cases, inl, inr,
}
use media_share.Prelude.Int.{ℤ, pos, leb_ℤ}
use media_share.Random.{Rng, rand_token}
use media_share.Store.Db.{
  Db, Result, ok, err, Error, World, LedgerEntry, Reason, Sql, commit, pure, exec, tick, attempt,
  ◌>>=◌, ◌>>◌,
}
use media_share.Store.Db.Transactions.{
  AllOrNothing, Effect, Ends, Runs, after, commit-Ends, deferring_rollback-AllOrNothing, exec-Runs,
  moved-Ends, no_effect, exec-then-Ends, then_db,
}
use media_share.Store.Credits.{
  after_event, credit_new, crediting, insert_ledger, Cheer, insert_bits_event, upsert_event_viewer,
  add_credits, append_ledger, credit_bits,
}

abbrev pub entry_of : Rng → Text → Text → ℤ → Reason → Text → ℕ → LedgerEntry
entry_of rng viewer_id streamer_id delta reason ref now = record {
  id = rand_token 16 rng;
  viewer_id = viewer_id;
  streamer_id = streamer_id;
  delta = delta;
  reason = reason;
  ref = ref;
  created_at = now;
}

-- What a cheer does to the tables, all of it: the message id, the viewer, the balance, the ledger.
abbrev pub cheer_effect : Rng → ℕ → ℕ → Cheer → Db → Result (Unit {0} × Db)
cheer_effect rng received now c d =
    then_db
      (then_db
        (then_db (insert_bits_event c.msg_id received d)
          (upsert_event_viewer c.viewer_id c.login c.display_name now))
        (add_credits c.viewer_id c.streamer_id c.bits now))
      (append_ledger (entry_of rng c.viewer_id c.streamer_id c.bits Reason.cheer c.msg_id now))

then_db_assoc :
    (r : Result (Unit {0} × Db)) (f g : Effect) → then_db (then_db r f) g ≡ then_db r (after f g)
then_db_assoc (ok x) f g = refl
then_db_assoc (err e) f g = refl

then_db-no_effect : (r : Result (Unit {0} × Db)) → then_db r no_effect ≡ r
then_db-no_effect (ok x) = refl
then_db-no_effect (err e) = refl

-- The effects behind the insert of the message id, in the order of the calls.
abbrev new_effect : Rng → ℕ → Cheer → Effect
new_effect rng now c = after (upsert_event_viewer c.viewer_id c.login c.display_name now) (
    after (add_credits c.viewer_id c.streamer_id c.bits now) (
      after
        (append_ledger (entry_of rng c.viewer_id c.streamer_id c.bits Reason.cheer c.msg_id now))
        no_effect))

new_effect-cheer_effect :
    (rng : Rng) (received now : ℕ) (c : Cheer) (d : Db)
    → after (insert_bits_event c.msg_id received) (new_effect rng now c) d
      ≡ cheer_effect rng received now c d
new_effect-cheer_effect rng received now c d =
    let inserted = insert_bits_event c.msg_id received d in
    let up = upsert_event_viewer c.viewer_id c.login c.display_name now in
    let add = add_credits c.viewer_id c.streamer_id c.bits now in
    let entry =
      append_ledger (entry_of rng c.viewer_id c.streamer_id c.bits Reason.cheer c.msg_id now) in
    sym (
      sym (then_db-no_effect _)
      ∙ then_db_assoc (then_db (then_db inserted up) add) entry no_effect
      ∙ then_db_assoc (then_db inserted up) add (after entry no_effect)
      ∙ then_db_assoc inserted up (after add (after entry no_effect)))

credit_new-Ends :
    (rng : Rng) (now : ℕ) (c : Cheer) (w : World)
    → Ends (new_effect rng now c) w (credit_new rng now c w).0 (credit_new rng now c w).1
unfolding credit_new insert_ledger
credit_new-Ends rng now c w =
    let up = upsert_event_viewer c.viewer_id c.login c.display_name now in
    let add = add_credits c.viewer_id c.streamer_id c.bits now in
    let entry =
      append_ledger (entry_of rng c.viewer_id c.streamer_id c.bits Reason.cheer c.msg_id now) in
    let finish = commit >> pure true in
    let book = exec entry >> finish in
    exec-then-Ends up (after add (after entry no_effect)) (exec add >> book) w (λ u.
      exec-then-Ends add (after entry no_effect) book u
        (λ v. exec-then-Ends entry no_effect finish v commit-Ends))

after_event-Ends :
    (rng : Rng) (received now : ℕ) (c : Cheer) (w v : World) (r : Result (Unit {0}))
    → Runs (insert_bits_event c.msg_id received) w r v
    → Ends
        (after (insert_bits_event c.msg_id received) (new_effect rng now c))
        w
        (after_event rng now c r v).0
        (after_event rng now c r v).1
unfolding after_event
after_event-Ends rng received now c w v (ok _) h =
    moved-Ends (insert_bits_event c.msg_id received) (new_effect rng now c) w v
      (credit_new rng now c v).1 (credit_new rng now c v).0 h.0 h.1 (credit_new-Ends rng now c v)
after_event-Ends rng received now c w v (err Error.unique_violation) h = h
after_event-Ends rng received now c w v (err Error.not_found) h = h
after_event-Ends rng received now c w v (err Error.failure) h = h
after_event-Ends rng received now c w v (err Error.foreign_key) h = h
after_event-Ends rng received now c w v (err Error.negative_cost) h = h
after_event-Ends rng received now c w v (err Error.unauthenticated) h = h
after_event-Ends rng received now c w v (err Error.exchange_failed) h = h

AllOrNothing-effect :
    (f g : Effect) (r : Result Bool) (d d' : Db)
    → f d ≡ g d
    → AllOrNothing f r d d'
    → AllOrNothing g r d d'
AllOrNothing-effect f g (ok true) d d' e h = sym e ∙ h
AllOrNothing-effect f g (ok false) d d' e h = h
AllOrNothing-effect f g (err x) d d' e h = h

-- The transaction behind a `Begin` that succeeded.
begun_credit :
    (rng : Rng) (received now : ℕ) (c : Cheer) (w : World)
    → w.saved ≡ some w.db
    → AllOrNothing
        (cheer_effect rng received now c)
        (crediting rng received now c w).0
        w.db
        (crediting rng received now c w).1.db
      × ((crediting rng received now c w).1.saved ≡ none)
unfolding crediting
begun_credit rng received now c w begun =
    let ins = insert_bits_event c.msg_id received in
    let f = after ins (new_effect rng now c) in
    let body : Sql Bool = attempt (exec ins) >>= after_event rng now c in
    let (done, idle) =
      deferring_rollback-AllOrNothing f body w begun
        (after_event-Ends rng received now c w (exec ins w).1 (exec ins w).0 (exec-Runs ins w)) in
    (
      AllOrNothing-effect f (cheer_effect rng received now c) _ w.db _
          (new_effect-cheer_effect rng received now c w.db) done,
      idle,
    )

-- A cheer is credited whole or leaves every table as it was, and no transaction stays open; `true` is
-- reported exactly with the whole effect.
pub credit_bits_atomic :
    (rng : Rng) (received now : ℕ) (c : Cheer) (w : World)
    → w.saved ≡ none
    → AllOrNothing
        (cheer_effect rng received now c)
        (credit_bits rng received now c w).0
        w.db
        (credit_bits rng received now c w).1.db
      × ((credit_bits rng received now c w).1.saved ≡ none)
unfolding credit_bits
credit_bits_atomic rng received now c w idle = elim (Bool-cases (leb_ℤ c.bits (pos 0))) [
  | inl nothing ↦ rw nothing (refl, idle)
  | inr due ↦ elim (Bool-cases (w.faults w.calls)) [
    | inl fault ↦ rw due (rw fault (refl, idle))
    | inr fine ↦
        rw due
          (rw fine (begun_credit rng received now c (record (tick w) { saved = some w.db }) refl))
  ]
]
