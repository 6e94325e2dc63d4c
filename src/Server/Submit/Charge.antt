-- ===== src/Server/Submit/Charge.antt =====
-- What a submission costs, and how it is charged.
use media_share.Prelude.{
  ℕ, ◌≤◌, ◌≡◌, inl, inr, refl, Bool, true, false, ◌&&◌, Option, none, some, Text, same,
  if◌then◌else◌, arith, Bool-cases,
}
use media_share.Prelude.Int.{ℤ, ◌-ℤ◌, ◌≤ℤ◌}
use media_share.Store.Db.{Viewer, Result, ok, err, World}
use media_share.Store.Credits.{spend_credits}
use media_share.Store.Credits.Payments.{spend_credits_atomic}
use media_share.Store.Credits.Balances.{credits_in}
use media_share.Store.Credits.Accounts.{CreditOp, IsSettled, perform, perform-IsSettled}
use media_share.Store.Credits.Spending.{spend_credits_exact, spend_credits_refused}
use media_share.Server.{Config, Reply, accepted}
use media_share.Server.Submit.{Inputs, refusal, price, charge_submit, billable_duration}

-- The viewer had the price of the clip and exactly that is gone, from that channel's balance only;
-- where credits are off no table changes.
abbrev pub Paid : Bool → ℤ → Text → Text → World → World → Type 0
Paid false cost v s w w' = w'.db ≡ w.db
Paid true cost v s w w' =
    (cost ≤ℤ credits_in v s w.db)
    × ((v' s' : Text)
        → credits_in v' s' w'.db ≡ (
            if same v v' && same s s'
            then credits_in v' s' w.db -ℤ cost
            else credits_in v' s' w.db))

-- The length of a clip that can be charged for.
abbrev pub Billable : Bool → ℕ → Type 0
Billable credits n = (n ≤ 3600) × ((if credits then 10 else 0) ≤ n)

pub billable_duration-Billable :
    (c : Config) (n : ℕ) → n ≤ 3600 → Billable c.credits_enabled (billable_duration c n)
unfolding billable_duration
billable_duration-Billable c n h = (ground arith, ground arith)

abbrev pub is_refusal : Reply → Bool
is_refusal (accepted it) = false
is_refusal _ = true

-- A charge that lets the submission through was paid; another changes no table and has its own reply.
abbrev pub Charged : Bool → ℤ → Text → Text → World → Option Reply → World → Type 0
Charged credits cost v s w none w' = Paid credits cost v s w w'
Charged credits cost v s w (some reply) w' = (w'.db ≡ w.db) × (is_refusal reply ≡ true)

spent-Charged :
    (i : Inputs) (cost : ℤ) (v s ref : Text) (w : World) (r : Result (ℤ × Bool))
    → IsSettled w
    → (spend_credits i.ledger i.updated i.now v s cost ref w).0 ≡ r
    → Charged true cost v s w
        (refusal cost r)
        (spend_credits i.ledger i.updated i.now v s cost ref w).1
unfolding refusal
spent-Charged i cost v s ref w (ok (b, true)) h e =
    let (had, left, taken) = spend_credits_exact i.ledger i.updated i.now v s cost ref w b h e in
    (had, taken)
spent-Charged i cost v s ref w (ok (b, false)) h e =
    ((spend_credits_refused i.ledger i.updated i.now v s cost ref w b h e).0, refl)
spent-Charged i cost v s ref w (err x) h e =
    (rw e at (spend_credits_atomic i.ledger i.updated i.now v s cost ref w h.idle).0, refl)

pub charge_submit-Charged :
    (c : Config) (i : Inputs) (v : Viewer) (streamer_id : Text) (seconds : ℕ) (ref : Text)
    (w : World)
    → IsSettled w
    → Charged c.credits_enabled
        (price c seconds)
        v.id
        streamer_id
        w
        (charge_submit c i v streamer_id seconds ref w).0
        (charge_submit c i v streamer_id seconds ref w).1
unfolding charge_submit
charge_submit-Charged c i v streamer_id seconds ref w h = elim (Bool-cases c.credits_enabled) [
  | inr off ↦ simp off refl
  | inl on ↦ simp on (spent-Charged i (price c seconds) v.id streamer_id ref w _ h refl)
]

pub charge_submit-IsSettled :
    (c : Config) (i : Inputs) (v : Viewer) (streamer_id : Text) (seconds : ℕ) (ref : Text)
    (w : World)
    → IsSettled w
    → IsSettled (charge_submit c i v streamer_id seconds ref w).1
unfolding charge_submit
charge_submit-IsSettled c i v streamer_id seconds ref w h = elim (Bool-cases c.credits_enabled) [
  | inr off ↦ simp off h
  | inl on ↦ simp on (
      unfold perform in
      perform-IsSettled
        (CreditOp.spend i.ledger i.updated i.now v.id streamer_id (price c seconds) ref) w h)
]
