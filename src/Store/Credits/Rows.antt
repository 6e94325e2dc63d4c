-- ===== src/Store/Credits/Rows.antt =====
-- The rows of the balances: one for each pair, and their signs.
use media_share.Prelude.{
  ℕ, ◌≡◌, refl, Bool, false, List, [], ◌∷◌, ◌++◌, Text, same_iff, arith, All, All-append, select,
  update, exists, exists-append, exists-update,
}
use media_share.Prelude.Int.{ℤ, pos, ◌+ℤ◌, ◌-ℤ◌, ◌≤ℤ◌}
use media_share.Store.Db.{CreditBalance, Db, ok}
use media_share.Store.Credits.{of_pair, affords, charged, credited, add_credits, deduct}
use media_share.Store.Credits.Balances.{NonNegative, UniquePairs}

-- The key of the balances and their sign are kept.
UniquePairs-append :
    (t : List CreditBalance) (b : CreditBalance)
    → UniquePairs t
    → exists (of_pair b.viewer_id b.streamer_id) t ≡ false
    → UniquePairs (t ++ b ∷ [])
unfolding exists select
UniquePairs-append [] b u e = ground arith
UniquePairs-append (x ∷ t) b u e = ground (
  arith,
  UniquePairs-append t b u.1,
  exists-append (of_pair x.viewer_id x.streamer_id) t b,
  same_iff x.viewer_id b.viewer_id,
  same_iff x.streamer_id b.streamer_id,
  same_iff b.viewer_id x.viewer_id,
  same_iff b.streamer_id x.streamer_id,
)

abbrev KeepsPair : (CreditBalance → CreditBalance) → Type 0
KeepsPair f =
    (b : CreditBalance) → ((f b).viewer_id ≡ b.viewer_id) × ((f b).streamer_id ≡ b.streamer_id)

of_pair-keeps :
    (f : CreditBalance → CreditBalance)
    → KeepsPair f
    → (v s : Text) (b : CreditBalance) → of_pair v s (f b) ≡ of_pair v s b
of_pair-keeps f keeps v s b = rw ((keeps b).0, (keeps b).1) refl

UniquePairs-update :
    (q : CreditBalance → Bool) (f : CreditBalance → CreditBalance) (t : List CreditBalance)
    → KeepsPair f
    → UniquePairs t
    → UniquePairs (update q f t)
unfolding update
UniquePairs-update q f [] keeps u = tt
UniquePairs-update q f (b ∷ t) keeps u = ground (
  arith,
  UniquePairs-update q f t keeps u.1,
  (keeps b).0,
  (keeps b).1,
  exists-update (of_pair b.viewer_id b.streamer_id) q f t
      (of_pair-keeps f keeps b.viewer_id b.streamer_id),
)

pub add_credits-UniquePairs :
    (v s : Text) (amount : ℤ) (now : ℕ) (d d' : Db)
    → add_credits v s amount now d ≡ ok (tt, d')
    → UniquePairs d.credit_balances
    → UniquePairs d'.credit_balances
unfolding add_credits
add_credits-UniquePairs v s amount now d d' e u =
    let b : CreditBalance = record {
      viewer_id = v;
      streamer_id = s;
      credits = amount;
      updated_at = now;
    } in
    ground (
      arith,
      UniquePairs-update (of_pair v s) (credited amount now) d.credit_balances (λ b. (refl, refl))
          u,
      UniquePairs-append d.credit_balances b u,
    )

pub deduct-UniquePairs :
    (v s : Text) (cost : ℤ) (now n : ℕ) (d d' : Db)
    → deduct v s cost now d ≡ ok (n, d')
    → UniquePairs d.credit_balances
    → UniquePairs d'.credit_balances
unfolding deduct
deduct-UniquePairs v s cost now n d d' e u = ground (
  arith,
  UniquePairs-update (affords v s cost) (charged cost now) d.credit_balances (λ b. (refl, refl)) u,
)

NonNegative-credited :
    (q : CreditBalance → Bool) (amount : ℤ) (now : ℕ) (t : List CreditBalance)
    → pos 0 ≤ℤ amount
    → All NonNegative t
    → All NonNegative (update q (credited amount now) t)
unfolding update ◌+ℤ◌
NonNegative-credited q amount now [] p h = tt
NonNegative-credited q amount now (b ∷ t) p h =
    ground (arith, NonNegative-credited q amount now t p h.1)

NonNegative-charged :
    (v s : Text) (cost : ℤ) (now : ℕ) (t : List CreditBalance)
    → All NonNegative t
    → All NonNegative (update (affords v s cost) (charged cost now) t)
unfolding update ◌-ℤ◌
NonNegative-charged v s cost now [] h = tt
NonNegative-charged v s cost now (b ∷ t) h = ground (arith, NonNegative-charged v s cost now t h.1)

pub add_credits-NonNegative :
    (v s : Text) (amount : ℤ) (now : ℕ) (d d' : Db)
    → add_credits v s amount now d ≡ ok (tt, d')
    → pos 0 ≤ℤ amount
    → All NonNegative d.credit_balances
    → All NonNegative d'.credit_balances
unfolding add_credits
add_credits-NonNegative v s amount now d d' e p h =
    let b : CreditBalance = record {
      viewer_id = v;
      streamer_id = s;
      credits = amount;
      updated_at = now;
    } in
    ground (
      arith,
      NonNegative-credited (of_pair v s) amount now d.credit_balances p h,
      All-append NonNegative d.credit_balances (b ∷ []) h (p, tt),
    )

pub deduct-NonNegative :
    (v s : Text) (cost : ℤ) (now n : ℕ) (d d' : Db)
    → deduct v s cost now d ≡ ok (n, d')
    → All NonNegative d.credit_balances
    → All NonNegative d'.credit_balances
unfolding deduct
deduct-NonNegative v s cost now n d d' e h =
    ground (arith, NonNegative-charged v s cost now d.credit_balances h)
