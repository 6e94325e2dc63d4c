-- ===== src/Store/Credits/Balances.antt =====
-- What the statements of the credits do to the balance of each pair of a viewer and a streamer.
use media_share.Prelude.{
  ℕ, ◌≡◌, refl, true, false, ◌&&◌, Option, none, some, List, [], ◌∷◌, ◌++◌, Text, same, same_iff,
  arith, if◌then◌else◌, Option-cases, inl, inr, select, update, exists, count_where, select-append,
  select-update, select-fits,
}
use media_share.Prelude.Int.{ℤ, pos, ◌+ℤ◌, ◌-ℤ◌, ◌≤ℤ◌, leb_ℤ}
use media_share.Store.Db.{CreditBalance, Db, ok}
use media_share.Store.Credits.{
  of_pair, credits_of, affords, charged, credited, add_credits, deduct, select_credits,
}

abbrev or_none : Option ℤ → ℤ
or_none none = pos 0
or_none (some b) = b

-- The credits of a pair, 0 if it has no balance.
abbrev pub credits_in : Text → Text → Db → ℤ
credits_in viewer_id streamer_id d = or_none (select_credits viewer_id streamer_id d)

-- The primary key: no two balances are of one pair.
abbrev pub UniquePairs : List CreditBalance → Type 0
UniquePairs [] = Unit
UniquePairs (b ∷ t) = (exists (of_pair b.viewer_id b.streamer_id) t ≡ false) × UniquePairs t

abbrev pub NonNegative : CreditBalance → Type 0
NonNegative b = pos 0 ≤ℤ b.credits

-- The credits of a pair in a table.
abbrev row_credits : Text → Text → List CreditBalance → ℤ
row_credits v s t = or_none (credits_of (select (of_pair v s) t))

same_pair :
    (v s v' s' : Text) (b : CreditBalance)
    → of_pair v' s' b ≡ true
    → of_pair v s b ≡ (same v v' && same s s')
same_pair v s v' s' b fits = ground (
  arith,
  same_iff b.viewer_id v,
  same_iff b.viewer_id v',
  same_iff b.streamer_id s,
  same_iff b.streamer_id s',
  same_iff v v',
  same_iff s s',
)

select-same :
    (v s v' s' : Text) (t : List CreditBalance)
    → (same v v' && same s s') ≡ true
    → select (of_pair v s) t ≡ select (of_pair v' s') t
select-same v s v' s' t e = ground (arith, same_iff v v', same_iff s s')

credits-update :
    (v s v' s' : Text) (amount : ℤ) (now : ℕ) (t : List CreditBalance)
    → exists (of_pair v s) t ≡ true
    → row_credits v' s' (update (of_pair v s) (credited amount now) t)
      ≡ (if same v v' && same s s' then row_credits v' s' t +ℤ amount else row_credits v' s' t)
unfolding exists
credits-update v s v' s' amount now t e = elim (Option-cases (select (of_pair v' s') t)) [
  | inl missing ↦ ground (
    arith,
    select-update (of_pair v' s') (of_pair v s) (credited amount now) t (λ b. refl),
    select-same v s v' s' t,
  )
  | inr (b, at) ↦ ground (
    arith,
    select-update (of_pair v' s') (of_pair v s) (credited amount now) t (λ b. refl),
    select-fits (of_pair v' s') t b at,
    same_pair v s v' s' b,
  )
]

zero_add : (a : ℤ) → pos 0 +ℤ a ≡ a
unfolding ◌+ℤ◌
zero_add a = ground arith

credits-append :
    (v s v' s' : Text) (amount : ℤ) (now : ℕ) (t : List CreditBalance)
    → exists (of_pair v s) t ≡ false
    → row_credits v' s'
        (t ++ record { viewer_id = v; streamer_id = s; credits = amount; updated_at = now } ∷ [])
      ≡ (if same v v' && same s s' then row_credits v' s' t +ℤ amount else row_credits v' s' t)
unfolding exists
credits-append v s v' s' amount now t e =
    let b : CreditBalance = record {
      viewer_id = v;
      streamer_id = s;
      credits = amount;
      updated_at = now;
    } in
    elim (Option-cases (select (of_pair v' s') t)) [
      | inl missing ↦ ground (arith, select-append (of_pair v' s') t b, zero_add amount)
      | inr (b', at) ↦ ground (arith, select-append (of_pair v' s') t b, select-same v s v' s' t)
    ]

pub credits-add_credits :
    (v s v' s' : Text) (amount : ℤ) (now : ℕ) (d d' : Db)
    → add_credits v s amount now d ≡ ok (tt, d')
    → credits_in v' s' d'
      ≡ (if same v v' && same s s' then credits_in v' s' d +ℤ amount else credits_in v' s' d)
unfolding add_credits select_credits
credits-add_credits v s v' s' amount now d d' e = ground (
  arith,
  credits-update v s v' s' amount now d.credit_balances,
  credits-append v s v' s' amount now d.credit_balances,
)

abbrev payers : ℤ → Option CreditBalance → ℕ
payers cost none = 0
payers cost (some b) = if leb_ℤ cost b.credits then 1 else 0

-- With one balance for each pair, the conditional update finds the pair's balance or nothing.
pub count-affords :
    (v s : Text) (cost : ℤ) (t : List CreditBalance)
    → UniquePairs t
    → count_where (affords v s cost) t ≡ payers cost (select (of_pair v s) t)
unfolding count_where select exists
count-affords v s cost [] u = refl
count-affords v s cost (b ∷ t) u =
    ground (arith, count-affords v s cost t u.1, same_iff b.viewer_id v, same_iff b.streamer_id s)

-- A pair that pays has at least the cost.
pub affordable :
    (v s : Text) (cost : ℤ) (t : List CreditBalance)
    → UniquePairs t
    → count_where (affords v s cost) t ≡ 1
    → leb_ℤ cost (row_credits v s t) ≡ true
affordable v s cost t u n = elim (Option-cases (select (of_pair v s) t)) [
  | inl missing ↦ ground (arith, count-affords v s cost t u)
  | inr (b, at) ↦ ground (arith, count-affords v s cost t u)
]

credits-charge :
    (v s v' s' : Text) (cost : ℤ) (now : ℕ) (t : List CreditBalance)
    → UniquePairs t
    → count_where (affords v s cost) t ≡ 1
    → row_credits v' s' (update (affords v s cost) (charged cost now) t)
      ≡ (if same v v' && same s s' then row_credits v' s' t -ℤ cost else row_credits v' s' t)
credits-charge v s v' s' cost now t u n = elim (Option-cases (select (of_pair v' s') t)) [
  | inl missing ↦ ground (
    arith,
    select-update (of_pair v' s') (affords v s cost) (charged cost now) t (λ b. refl),
    select-same v s v' s' t,
    count-affords v s cost t u,
  )
  | inr (b, at) ↦ ground (
    arith,
    select-update (of_pair v' s') (affords v s cost) (charged cost now) t (λ b. refl),
    select-fits (of_pair v' s') t b at,
    same_pair v s v' s' b,
    select-same v s v' s' t,
    affordable v s cost t u n,
  )
]

pub credits-deduct :
    (v s v' s' : Text) (cost : ℤ) (now n : ℕ) (d d' : Db)
    → UniquePairs d.credit_balances
    → deduct v s cost now d ≡ ok (n, d')
    → n ≡ 1
    → credits_in v' s' d'
      ≡ (if same v v' && same s s' then credits_in v' s' d -ℤ cost else credits_in v' s' d)
unfolding deduct select_credits
credits-deduct v s v' s' cost now n d d' u e one =
    ground (arith, credits-charge v s v' s' cost now d.credit_balances u)
