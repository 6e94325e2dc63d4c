-- ===== src/Twitch/Bot/Backoff/Waits.antt =====
-- The waits of the loop that connects again.
use media_share.Prelude.{
  ℕ, zero, suc, ◌+◌, ◌*◌, ◌^◌, ◌≡◌, refl, get_elem?, Bool, true, false, some, List, [], ◌∷◌, ltb,
  if◌then◌else◌, arith, Bool-cases, inl, inr,
}
use media_share.Twitch.Bot.Session.{Chat}
use media_share.Twitch.Bot.Backoff.{Round, next_backoff, met, rounds, run, IsLasting}
use media_share.Twitch.Bot.Backoff.Rounds.{hanging-cases, rounds-cons, rounds-hanging, ended_waits}

-- The wait behind j others, in seconds.
unfoldable pub wait_behind : ℕ → ℕ
wait_behind j = if ltb j 5 then 2 ^ j else 32

next_backoff-wait_behind : (j : ℕ) → next_backoff (wait_behind j) ≡ wait_behind (j + 1)
unfolding next_backoff wait_behind
next_backoff-wait_behind zero = refl
next_backoff-wait_behind (suc zero) = refl
next_backoff-wait_behind (suc (suc zero)) = refl
next_backoff-wait_behind (suc (suc (suc zero))) = refl
next_backoff-wait_behind (suc (suc (suc (suc zero)))) = refl
next_backoff-wait_behind (suc (suc (suc (suc (suc j))))) = ground arith

-- Each wait stands where the doubling has it, if the first is that behind j others.
abbrev Doubles : ℕ → List ℕ → Type 0
Doubles j waits = (n w : ℕ) → get_elem? waits n ≡ some w → w ≡ wait_behind (j + n)

Doubles-nil : (j : ℕ) → Doubles j []
Doubles-nil j n w h = cc

Doubles-cons : (j : ℕ) (waits : List ℕ) → Doubles (j + 1) waits → Doubles j (wait_behind j ∷ waits)
Doubles-cons j waits h zero w e = let same : j + 0 ≡ j = omega arith in rw same (ground arith)
Doubles-cons j waits h (suc n) w e =
    let same : j + suc n ≡ j + 1 + n = omega arith in rw same (h n w e)

module _ (done : ℕ → Bool) (lasts : IsLasting done) where
  rounds-Doubles :
      (i j : ℕ) (rs : List Round) (chat : Chat)
      → Doubles j (rounds done i (wait_behind j) rs chat).waits
  rounds-Doubles i j [] chat = unfold rounds in Doubles-nil j
  rounds-Doubles i j (r ∷ rs) chat = elim (hanging-cases (met (done (3 * i + 1)) r chat).0) [
    | inl hangs ↦ rw (rounds-hanging done i (wait_behind j) r rs chat hangs) (Doubles-nil j)
    | inr returns ↦
        rw (rounds-cons done i (wait_behind j) r rs chat returns)
          (elim (Bool-cases (done (3 * i))) [
            | inl over ↦ rw over (Doubles-nil j)
            | inr goes ↦ elim (Bool-cases (done (3 * i + 1))) [
              | inl over ↦
                  rw (goes, over, ended_waits done lasts i rs (met true r chat).1 over)
                    (Doubles-nil j)
              | inr on ↦ elim (Bool-cases (done (3 * i + 2))) [
                | inl over ↦ rw (goes, on, over) (Doubles-cons j [] (Doubles-nil (j + 1)))
                | inr waits ↦
                    let later : Doubles (j + 1)
                        (rounds done (i + 1) (next_backoff (wait_behind j)) rs
                          (met false r chat).1).waits =
                      rw (next_backoff-wait_behind j)
                        (rounds-Doubles (i + 1) (j + 1) rs (met false r chat).1) in
                    rw (goes, on, waits) (Doubles-cons j _ later)
              ]
            ]
          ])
  ]

  -- Under a context that stays cancelled once it is, the waits double from a second up to 32 seconds and
  -- stay there: the wait behind n others is that, however long the connections between them were in use.
  pub run-waits :
      (rs : List Round) (chat : Chat) (n w : ℕ)
      → get_elem? (run done rs chat).waits n ≡ some w
      → w ≡ wait_behind n
  unfolding run
  run-waits rs chat n w h =
      let same : 0 + n ≡ n = omega arith in
      rw (← same) (rounds-Doubles 0 0 rs chat n w (unfold wait_behind in h))
