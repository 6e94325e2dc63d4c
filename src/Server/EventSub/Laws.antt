-- ===== src/Server/EventSub/Laws.antt =====
-- Which notifications are credited.
use media_share.Prelude.{
  Bool, false, if◌then◌else◌, ◌≡◌, ◌⊎◌, inl, inr, refl, true, Option, none, some, Text, codes, same,
  same_iff, exists, arith, Bool-cases,
}
use media_share.Store.Db.{World, Db, ok}
use media_share.Store.Credits.{insert_bits_event}
use media_share.Store.Credits.Atomic.{cheer_effect, credit_bits_atomic}
use media_share.Store.Credits.Accounts.{
  AllOrNothing-cases, CreditOp, IsSettled, perform, perform-IsSettled,
}
use media_share.Store.Credits.Replay.{is_event}
use media_share.Server.EventSub.{
  CheerEvent, Envelope, echo, status, Message, Setting, verify_signature, timestamp_fresh, cheer_of,
  is_creditable, handle_cheer_notification, dispatch, handle_event_sub,
}

-- A message whose cheer is credited, with the tables before and after.
abbrev pub Credits : Setting → Message → Db → Db → Type 0
Credits c m d d' =
    (env : Envelope) × (e : CheerEvent) × (verify_signature c m ≡ true)
    × (timestamp_fresh c m ≡ true)
    × (m.kind ≡ codes "notification")
    × (c.decode m.body ≡ some env)
    × (env.event ≡ some e)
    × (is_creditable e ≡ true)
    × (cheer_effect c.ledger c.received c.now (cheer_of m.id e) d ≡ ok (tt, d'))

cheer_notification-cases :
    (c : Setting) (id : Text) (event : Option CheerEvent) (w : World)
    → w.saved ≡ none
    → ((handle_cheer_notification c id event w).db ≡ w.db)
      ⊎ ((e : CheerEvent) × (event ≡ some e)
          × (is_creditable e ≡ true)
          × (cheer_effect c.ledger c.received c.now (cheer_of id e) w.db
              ≡ ok (tt, (handle_cheer_notification c id event w).db)))
unfolding handle_cheer_notification
cheer_notification-cases c id none w idle = inl refl
cheer_notification-cases c id (some e) w idle = elim (Bool-cases (is_creditable e)) [
  | inr refused ↦ inl (rw refused refl)
  | inl creditable ↦
      rw creditable
        (elim (AllOrNothing-cases _ _ w.db _
          (credit_bits_atomic c.ledger c.received c.now (cheer_of id e) w idle).0) [
            | inl unchanged ↦ inl unchanged
            | inr changed ↦ inr (e, refl, creditable, changed)
          ])
]

dispatch-cases :
    (c : Setting) (m : Message) (env : Option Envelope) (w : World)
    → w.saved ≡ none
    → ((dispatch c m env w).1.db ≡ w.db)
      ⊎ ((got : Envelope) × (e : CheerEvent) × (m.kind ≡ codes "notification")
          × (env ≡ some got)
          × (got.event ≡ some e)
          × (is_creditable e ≡ true)
          × (cheer_effect c.ledger c.received c.now (cheer_of m.id e) w.db
              ≡ ok (tt, (dispatch c m env w).1.db)))
unfolding dispatch
dispatch-cases c m none w idle = inl refl
dispatch-cases c m (some env) w idle =
    elim (Bool-cases (same m.kind (codes "webhook_callback_verification"))) [
      | inl k ↦ inl (rw k refl)
      | inr k ↦ elim (Bool-cases (same m.kind (codes "revocation"))) [
        | inl k2 ↦ inl (rw k (rw k2 refl))
        | inr k2 ↦ elim (Bool-cases (same m.kind (codes "notification"))) [
          | inr k3 ↦ inl (rw k (rw k2 (rw k3 refl)))
          | inl k3 ↦ elim (cheer_notification-cases c m.id env.event w idle) [
            | inl unchanged ↦ inl (rw k (rw k2 (rw k3 unchanged)))
            | inr (e, event, creditable, changed) ↦ inr (
              env,
              e,
              (same_iff m.kind (codes "notification")).0 k3,
              refl,
              event,
              creditable,
              rw k (rw k2 (rw k3 changed)),
            )
          ]
        ]
      ]
    ]

-- A request to the webhook leaves every table as it was, unless it carries a message with a valid
-- signature and a fresh timestamp that notifies of a creditable cheer: then the cheer is credited
-- whole, to the viewer and the channel that the message names.
pub handle_event_sub-authentic :
    (c : Setting) (m : Message) (w : World)
    → w.saved ≡ none
    → ((handle_event_sub c (some m) w).1.db ≡ w.db)
      ⊎ Credits c m w.db (handle_event_sub c (some m) w).1.db
unfolding handle_event_sub
handle_event_sub-authentic c m w idle = elim (Bool-cases (verify_signature c m)) [
  | inr unsigned ↦ inl (rw unsigned refl)
  | inl signed ↦ elim (Bool-cases (timestamp_fresh c m)) [
    | inr stale ↦ inl (rw signed (rw stale refl))
    | inl fresh ↦ elim (dispatch-cases c m (c.decode m.body) w idle) [
      | inl unchanged ↦ inl (rw signed (rw fresh unchanged))
      | inr (env, e, kind, decoded, event, creditable, changed) ↦
          inr
            (env, e, signed, fresh, kind, decoded, event, creditable, rw signed (rw fresh changed))
    ]
  ]
]

already_processed :
    (c : Setting) (id : Text) (e : CheerEvent) (d d' : Db)
    → exists (is_event id) d.bits_events ≡ true
    → cheer_effect c.ledger c.received c.now (cheer_of id e) d ≡ ok (tt, d')
    → d' ≡ d
unfolding insert_bits_event
already_processed c id e d d' seen h = ground arith

-- A message that is recorded as processed changes no table when it is delivered again.
pub handle_event_sub-replay :
    (c : Setting) (m : Message) (w : World)
    → w.saved ≡ none
    → exists (is_event m.id) w.db.bits_events ≡ true
    → (handle_event_sub c (some m) w).1.db ≡ w.db
handle_event_sub-replay c m w idle seen = elim (handle_event_sub-authentic c m w idle) [
  | inl unchanged ↦ unchanged
  | inr (env, e, signed, fresh, kind, decoded, event, creditable, changed) ↦
      already_processed c m.id e w.db _ seen changed
]

cheer_notification-IsSettled :
    (c : Setting) (id : Text) (event : Option CheerEvent) (w : World)
    → IsSettled w
    → IsSettled (handle_cheer_notification c id event w)
unfolding handle_cheer_notification
cheer_notification-IsSettled c id none w h = h
cheer_notification-IsSettled c id (some e) w h = elim (Bool-cases (is_creditable e)) [
  | inr refused ↦ rw refused h
  | inl creditable ↦ rw creditable (
      unfold perform in
      perform-IsSettled (CreditOp.cheer c.ledger c.received c.now (cheer_of id e)) w h)
]

if-IsSettled :
    {A : Type 0} (b : Bool) (x y : A × World)
    → IsSettled x.1
    → IsSettled y.1
    → IsSettled (if b then x else y).1
if-IsSettled true x y hx hy = hx
if-IsSettled false x y hx hy = hy

dispatch-IsSettled :
    (c : Setting) (m : Message) (env : Option Envelope) (w : World)
    → IsSettled w
    → IsSettled (dispatch c m env w).1
unfolding dispatch
dispatch-IsSettled c m none w h = h
dispatch-IsSettled c m (some env) w h =
    if-IsSettled _ (echo env.challenge, w) _ h
      (if-IsSettled _ (status 200, w) _ h
        (if-IsSettled _ (status 200, handle_cheer_notification c m.id env.event w) (status 204, w)
          (cheer_notification-IsSettled c m.id env.event w h) h))

-- A request to the webhook keeps the tables settled.
pub handle_event_sub-IsSettled :
    (c : Setting) (m : Option Message) (w : World)
    → IsSettled w
    → IsSettled (handle_event_sub c m w).1
unfolding handle_event_sub
handle_event_sub-IsSettled c none w h = h
handle_event_sub-IsSettled c (some m) w h =
    if-IsSettled _ (status 403, w) _ h
      (if-IsSettled _ (status 403, w) (dispatch c m (c.decode m.body) w) h
        (dispatch-IsSettled c m (c.decode m.body) w h))
