-- ===== src/Store/Credits/Replay.antt =====
-- Messages that are delivered more than once.
use media_share.Prelude.{
  ℕ, ◌+◌, ◌≤◌, ◌≡◌, refl, inl, inr, Bool, true, false, ◌&&◌, none, List, [], ◌∷◌, ◌++◌, Text, same,
  same_iff, arith, if◌then◌else◌, Bool-cases, select, exists, count_where,
}
use media_share.Prelude.Int.{ℤ, pos, ◌-ℤ◌, ltb_ℤ}
use media_share.Random.{Rng}
use media_share.Store.Db.{Db, ok, World, Reason, BitsEvent, LedgerEntry}
use media_share.Store.Credits.{
  Cheer, insert_bits_event, upsert_event_viewer, add_credits, append_ledger, deduct, balance,
}
use media_share.Store.Credits.Atomic.{entry_of, cheer_effect, credit_bits_atomic}
use media_share.Store.Credits.Payments.{spend_effect, grant_credits_atomic, spend_credits_atomic}
use media_share.Store.Credits.Audit.{then_db-eq-ok}
use media_share.Store.Credits.Accounts.{
  CreditOp, perform, perform_all, AllOrNothing-cases, Granted-cases, Spent-cases,
}

abbrev pub is_event : Text → BitsEvent → Bool
is_event msg e = same e.message_id msg

abbrev pub is_cheer : Reason → Bool
is_cheer Reason.cheer = true
is_cheer _ = false

abbrev pub is_cheer_of : Text → LedgerEntry → Bool
is_cheer_of msg e = is_cheer e.reason && same e.ref msg

-- How often a message is recorded as processed, and how often as credited.
abbrev pub processed : Text → Db → ℕ
processed msg d = count_where (is_event msg) d.bits_events

abbrev pub credited_times : Text → Db → ℕ
credited_times msg d = count_where (is_cheer_of msg) d.credit_ledger

pub record IsOnce (d : Db) : Type 0 where
  pub once : (msg : Text) → processed msg d ≤ 1
  pub in_step : (msg : Text) → credited_times msg d ≡ processed msg d

count_where-append {ℓ} :
    {R : Type ℓ} (p : R → Bool) (t : List R) (r : R)
    → count_where p (t ++ r ∷ []) ≡ count_where p t + (if p r then 1 else 0)
unfolding count_where
count_where-append p [] r = omega arith
count_where-append p (x ∷ t) r = omega (arith, count_where-append p t r)

count_where_zero {ℓ} :
    {R : Type ℓ} (p : R → Bool) (t : List R) → exists p t ≡ false → count_where p t ≡ 0
unfolding count_where exists select
count_where_zero p [] e = refl
count_where_zero p (x ∷ t) e = ground (arith, count_where_zero p t)

processed-insert :
    (msg msg' : Text) (now : ℕ) (d d' : Db)
    → insert_bits_event msg now d ≡ ok (tt, d')
    → (processed msg d ≡ 0)
      × (processed msg' d' ≡ processed msg' d + (if same msg msg' then 1 else 0))
      × (d'.credit_ledger ≡ d.credit_ledger)
unfolding insert_bits_event
processed-insert msg msg' now d d' h =
    let e : BitsEvent = record { message_id = msg; received_at = now } in
    ground (
      arith,
      count_where_zero (is_event msg) d.bits_events,
      count_where-append (is_event msg') d.bits_events e,
    )

-- The statements that touch neither table.
viewer_frame :
    (id login name : Text) (now : ℕ) (d d' : Db)
    → upsert_event_viewer id login name now d ≡ ok (tt, d')
    → (d'.credit_ledger ≡ d.credit_ledger) × (d'.bits_events ≡ d.bits_events)
unfolding upsert_event_viewer
viewer_frame id login name now d d' h = ground arith

credits_frame :
    (v s : Text) (amount : ℤ) (now : ℕ) (d d' : Db)
    → add_credits v s amount now d ≡ ok (tt, d')
    → (d'.credit_ledger ≡ d.credit_ledger) × (d'.bits_events ≡ d.bits_events)
unfolding add_credits
credits_frame v s amount now d d' h = ground arith

ledger_frame :
    (e : LedgerEntry) (msg : Text) (d d' : Db)
    → append_ledger e d ≡ ok (tt, d')
    → (credited_times msg d' ≡ credited_times msg d + (if is_cheer_of msg e then 1 else 0))
      × (d'.bits_events ≡ d.bits_events)
unfolding append_ledger
ledger_frame e msg d d' h = ground (arith, count_where-append (is_cheer_of msg) d.credit_ledger e)

cheer_effect-IsOnce :
    (rng : Rng) (received now : ℕ) (c : Cheer) (d d' : Db)
    → cheer_effect rng received now c d ≡ ok (tt, d')
    → IsOnce d
    → IsOnce d'
cheer_effect-IsOnce rng received now c d d' h o =
    let (d3, h3, h4) = then_db-eq-ok _ _ d' h in
    let (d2, h2, h3') = then_db-eq-ok _ _ d3 h3 in
    let (d1, h1, h2') = then_db-eq-ok _ _ d2 h2 in
    let e : LedgerEntry = entry_of rng c.viewer_id c.streamer_id c.bits Reason.cheer c.msg_id now in
    let f2 = viewer_frame c.viewer_id c.login c.display_name now d1 d2 h2' in
    let f3 = credits_frame c.viewer_id c.streamer_id c.bits now d2 d3 h3' in
    record {
      once = λ msg. ground (
        arith,
        processed-insert c.msg_id msg received d d1 h1,
        f2,
        f3,
        ledger_frame e msg d3 d' h4,
        o.once msg,
        same_iff c.msg_id msg,
      );
      in_step = λ msg. ground (
        arith,
        processed-insert c.msg_id msg received d d1 h1,
        f2,
        f3,
        ledger_frame e msg d3 d' h4,
        o.in_step msg,
      );
    }

-- What adds no cheer to the ledger and no message keeps the two in step.
other_entry-IsOnce :
    (e : LedgerEntry) (d d1 d2 : Db)
    → is_cheer e.reason ≡ false
    → (d1.credit_ledger ≡ d.credit_ledger) × (d1.bits_events ≡ d.bits_events)
    → append_ledger e d1 ≡ ok (tt, d2)
    → IsOnce d
    → IsOnce d2
other_entry-IsOnce e d d1 d2 other frame h o = record {
  once = λ msg. ground (arith, frame, ledger_frame e msg d1 d2 h, o.once msg);
  in_step = λ msg. ground (arith, frame, other, ledger_frame e msg d1 d2 h, o.in_step msg);
}

same_tables-IsOnce :
    (d d' : Db)
    → (d'.credit_ledger ≡ d.credit_ledger) × (d'.bits_events ≡ d.bits_events)
    → IsOnce d
    → IsOnce d'
same_tables-IsOnce d d' frame o = record {
  once = λ msg. rw frame.1 (o.once msg);
  in_step = λ msg. rw (frame.0, frame.1) (o.in_step msg);
}

spend_effect-IsOnce :
    (rng : Rng) (updated now : ℕ) (v s : Text) (cost : ℤ) (ref : Text) (d d' : Db)
    → spend_effect rng updated now v s cost ref d ≡ ok (tt, d')
    → IsOnce d
    → IsOnce d'
unfolding deduct
spend_effect-IsOnce rng updated now v s cost ref d d' h o = elim (Bool-cases (ltb_ℤ (pos 0) cost)) [
  | inl paid ↦
      other_entry-IsOnce (entry_of rng v s (pos 0 -ℤ cost) Reason.submit ref now) d _ d' refl
        (refl, refl) (rw paid at h) o
  | inr free ↦ let h' = rw free at h in same_tables-IsOnce d d' (ground arith) o
]

kept : (d d' : Db) → d' ≡ d → IsOnce d → IsOnce d'
kept d d' e o = rw e o

-- Between two calls: each message is processed at most once, and no transaction is open.
pub record IsDeduplicated (w : World) : Type 0 where
  pub messages : IsOnce w.db
  pub idle : w.saved ≡ none

perform-IsDeduplicated :
    (op : CreditOp) (w : World) → IsDeduplicated w → IsDeduplicated (perform op w)
unfolding perform
perform-IsDeduplicated (CreditOp.cheer rng received now c) w h =
    let atomic = credit_bits_atomic rng received now c w h.idle in
    record {
      messages = elim (AllOrNothing-cases _ _ w.db _ atomic.0) [
        | inl unchanged ↦ kept w.db _ unchanged h.messages
        | inr changed ↦ cheer_effect-IsOnce rng received now c w.db _ changed h.messages
      ];
      idle = atomic.1;
    }
perform-IsDeduplicated (CreditOp.spend rng updated now v s cost ref) w h =
    let atomic = spend_credits_atomic rng updated now v s cost ref w h.idle in
    record {
      messages = elim (Spent-cases _ _ _ _ w.db _ atomic.0) [
        | inl unchanged ↦ kept w.db _ unchanged h.messages
        | inr (one, changed) ↦
            spend_effect-IsOnce rng updated now v s cost ref w.db _ changed h.messages
      ];
      idle = atomic.1;
    }
perform-IsDeduplicated (CreditOp.grant rng now v s amount) w h =
    let atomic = grant_credits_atomic rng now v s amount w h.idle in
    record {
      messages = elim (Granted-cases _ _ _ w.db _ atomic.0) [
        | inl unchanged ↦ kept w.db _ unchanged h.messages
        | inr (due, changed) ↦
            let (d1, h1, h2) = then_db-eq-ok _ _ _ changed in
            other_entry-IsOnce (entry_of rng v s amount Reason.dev_grant [] now) w.db d1 _ refl
              (credits_frame v s amount now w.db d1 h1) h2 h.messages
      ];
      idle = atomic.1;
    }
perform-IsDeduplicated (CreditOp.check_balance v s) w h = record {
  messages = kept w.db _ (unfold balance in ground arith) h.messages;
  idle = unfold balance in ground (arith, h.idle);
}

-- Whatever is called, and whichever calls of the database fail: no message is processed twice, and a
-- message has exactly as many cheers in the ledger as it was processed.
pub perform_all-IsDeduplicated :
    (ops : List CreditOp) (w : World) → IsDeduplicated w → IsDeduplicated (perform_all ops w)
unfolding perform_all
perform_all-IsDeduplicated [] w h = h
perform_all-IsDeduplicated (op ∷ ops) w h =
    perform_all-IsDeduplicated ops (perform op w) (perform-IsDeduplicated op w h)
