-- ===== src/Store/Credits/Spending.antt =====
-- What a viewer pays, and when a spending is refused.
use media_share.Prelude.{
  ℕ, ◌≡◌, ◌≢◌, refl, ◌⊎◌, inl, inr, Bool, true, false, ◌&&◌, Option, none, some, Text, same,
  same_refl, update, arith, if◌then◌else◌, Bool-cases, Option-cases, select, select-update,
  count_where,
}
use media_share.Prelude.Int.{ℤ, pos, ◌-ℤ◌, ◌≤ℤ◌, ◌<ℤ◌, ltb_ℤ}
use media_share.Random.{Rng}
use media_share.Store.Db.{Db, Result, ok, err, World, Reason, calm}
use media_share.Store.Credits.{of_pair, affords, charged, deduct, select_credits, spend_credits}
use media_share.Store.Credits.Atomic.{entry_of}
use media_share.Store.Credits.Payments.{spend_effect, payable, spend_credits_atomic, Spent}
use media_share.Store.Credits.Balances.{
  credits_in, UniquePairs, credits-deduct, affordable, count-affords,
}
use media_share.Store.Credits.Audit.{IsAudited, append_ledger_frame}
use media_share.Store.Credits.Accounts.{IsSettled}

-- The credits of each pair after the whole effect of a spending.
credits-spend_effect :
    (rng : Rng) (updated now : ℕ) (v s v' s' : Text) (cost : ℤ) (ref : Text) (d d' : Db)
    → UniquePairs d.credit_balances
    → payable v s cost updated d ≡ 1
    → spend_effect rng updated now v s cost ref d ≡ ok (tt, d')
    → credits_in v' s' d'
      ≡ (if same v v' && same s s' then credits_in v' s' d -ℤ cost else credits_in v' s' d)
unfolding deduct select_credits
credits-spend_effect rng updated now v s v' s' cost ref d d' u one h =
    let t = update (affords v s cost) (charged cost updated) d.credit_balances in
    let d1 : Db = record d { credit_balances = t } in
    let taken = credits-deduct v s v' s' cost updated _ d d1 u (unfold deduct in refl) one in
    elim (Bool-cases (ltb_ℤ (pos 0) cost)) [
      | inl paid ↦
          let e = entry_of rng v s (pos 0 -ℤ cost) Reason.submit ref now in
          rw (append_ledger_frame e d1 d' (rw paid at h)).1 taken
      | inr free ↦ let h' = rw free at h in ground (arith, taken)
    ]

payable-affordable :
    (v s : Text) (cost : ℤ) (updated : ℕ) (d : Db)
    → UniquePairs d.credit_balances
    → payable v s cost updated d ≡ 1
    → cost ≤ℤ credits_in v s d
unfolding deduct select_credits
payable-affordable v s cost updated d u one =
    ground (arith, affordable v s cost d.credit_balances u one)

taken_if_true :
    (effect : Db → Result (Unit {0} × Db)) (read : Db → Option ℤ) (n : ℕ) (r : Result (ℤ × Bool))
    (d d' : Db) (b : ℤ)
    → Spent effect read n r d d'
    → r ≡ ok (b, true)
    → (effect d ≡ ok (tt, d')) × (read d' ≡ some b) × (n ≡ 1)
taken_if_true effect read n (ok (b', true)) d d' b h e = ground arith
taken_if_true effect read n (ok (b', false)) d d' b h e = ground arith
taken_if_true effect read n (err x) d d' b h e = ground arith

kept_if_false :
    (effect : Db → Result (Unit {0} × Db)) (read : Db → Option ℤ) (n : ℕ) (r : Result (ℤ × Bool))
    (d d' : Db) (b : ℤ)
    → Spent effect read n r d d'
    → r ≡ ok (b, false)
    → (d' ≡ d) × (n ≢ 1)
kept_if_false effect read n (ok (b', true)) d d' b h e = ground arith
kept_if_false effect read n (ok (b', false)) d d' b h e = ground arith
kept_if_false effect read n (err x) d d' b h e = ground arith

no_payers :
    (v s : Text) (d : Db)
    → UniquePairs d.credit_balances
    → select_credits v s d ≡ none
    → count_where (affords v s (pos 0)) d.credit_balances ≡ 0
unfolding select_credits
no_payers v s d u e = elim (Option-cases (select (of_pair v s) d.credit_balances)) [
  | inl missing ↦ ground (arith, count-affords v s (pos 0) d.credit_balances u)
  | inr (row, at) ↦ ground arith
]

still_missing :
    (v s : Text) (updated : ℕ) (d : Db)
    → select_credits v s d ≡ none
    → select_credits v s (record d {
      credit_balances = update (affords v s (pos 0)) (charged (pos 0) updated) d.credit_balances;
    })
      ≡ none
unfolding select_credits
still_missing v s updated d e = elim (Option-cases (select (of_pair v s) d.credit_balances)) [
  | inl missing ↦ ground (
    arith,
    select-update (of_pair v s) (affords v s (pos 0)) (charged (pos 0) updated) d.credit_balances
        (λ b. refl),
  )
  | inr (row, at) ↦ ground arith
]

-- A spending that succeeds had the cost, reports what is left of it, takes the cost from the viewer's
-- balance in that channel and leaves every other balance as it was.
pub spend_credits_exact :
    (rng : Rng) (updated now : ℕ) (v s : Text) (cost : ℤ) (ref : Text) (w : World) (b : ℤ)
    → IsSettled w
    → (spend_credits rng updated now v s cost ref w).0 ≡ ok (b, true)
    → (cost ≤ℤ credits_in v s w.db)
      × (b ≡ credits_in v s w.db -ℤ cost)
      × ((v' s' : Text)
          → credits_in v' s' (spend_credits rng updated now v s cost ref w).1.db ≡ (
              if same v v' && same s s'
              then credits_in v' s' w.db -ℤ cost
              else credits_in v' s' w.db))
spend_credits_exact rng updated now v s cost ref w b h e =
    let (atomic, idle) = spend_credits_atomic rng updated now v s cost ref w h.idle in
    let (changed, left, one) = taken_if_true _ _ _ _ w.db _ b atomic e in
    let taken = λ (v' s' : Text).
      credits-spend_effect rng updated now v s v' s' cost ref w.db _ h.audited.unique one changed in
    (
      payable-affordable v s cost updated w.db h.audited.unique one,
      ground (arith, left, taken v s, same_refl v, same_refl s),
      taken,
    )

-- A spending is refused only without a change, and only where the pair has no balance or less than
-- the cost.
pub spend_credits_refused :
    (rng : Rng) (updated now : ℕ) (v s : Text) (cost : ℤ) (ref : Text) (w : World) (b : ℤ)
    → IsSettled w
    → (spend_credits rng updated now v s cost ref w).0 ≡ ok (b, false)
    → ((spend_credits rng updated now v s cost ref w).1.db ≡ w.db)
      × ((select_credits v s w.db ≡ none) ⊎ (credits_in v s w.db <ℤ cost))
unfolding deduct select_credits
spend_credits_refused rng updated now v s cost ref w b h e =
    let (atomic, idle) = spend_credits_atomic rng updated now v s cost ref w h.idle in
    let (unchanged, n) = kept_if_false _ _ _ _ w.db _ b atomic e in
    (
      unchanged,
      elim (Option-cases (select (of_pair v s) w.db.credit_balances)) [
        | inl missing ↦ inl (rw missing)
        | inr (row, at) ↦
            inr (ground (arith, count-affords v s cost w.db.credit_balances h.audited.unique))
      ],
    )

-- Where no call of the database fails, a viewer without a balance row is refused even a clip that
-- costs nothing.
free_clip_refused :
    (rng : Rng) (updated now : ℕ) (v s ref : Text) (d : Db)
    → IsAudited d
    → select_credits v s d ≡ none
    → (spend_credits rng updated now v s (pos 0) ref (calm d)).0 ≡ ok (pos 0, false)
unfolding spend_credits deduct
free_clip_refused rng updated now v s ref d a missing =
    ground (arith, no_payers v s d a.unique missing, still_missing v s updated d missing)
