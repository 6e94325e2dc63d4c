-- ===== src/Queue/Conservation.antt =====
-- The items that the methods keep, retire and bring in.
use media_share.Prelude.{
  ℕ, ◌+◌, ◌≡◌, refl, Bool, true, false, Option, none, some, List, [], ◌∷◌, ◌++◌, map, Text,
  if◌then◌else◌, arith, Bool-cases, inl, inr,
}
use media_share.Queue
use media_share.Queue.{
  Item, Status, Manager, Outcome, retire, stamped, is_current, emit, start_if_idle, start_with,
  with_status,
}
use media_share.Queue.Find.{take_out}
use media_share.Queue.Ops.{
  Op, step, approve_taken, reject_taken, remove_taken, approve_lem, reject_lem, remove_lem,
}

-- A test of items that does not look at the status.
abbrev pub StatusBlind : (Item → Bool) → Type 0
StatusBlind p = (s : Status) (it : Item) → p (record it { status = s }) ≡ p it

abbrev pub count : (Item → Bool) → List Item → ℕ
count p [] = 0
count p (it ∷ items) = (if p it then 1 else 0) + count p items

abbrev pub count_option : (Item → Bool) → Option Item → ℕ
count_option p none = 0
count_option p (some it) = if p it then 1 else 0

-- How many of the items that the manager holds pass the test.
abbrev pub count_held : (Item → Bool) → Manager → ℕ
count_held p m = count p m.pending + count p m.queue + count_option p m.now_playing

-- What a call brings in.
abbrev pub added : Op → List Item
added (Op.submit fresh now it) = stamped fresh now it ∷ []
added _ = []

count-append : (p : Item → Bool) (xs ys : List Item) → count p (xs ++ ys) ≡ count p xs + count p ys
count-append p [] ys = omega arith
count-append p (x ∷ xs) ys = omega (arith, count-append p xs ys)

-- How many of a list that `take_out` has split.
abbrev count_taken : (Item → Bool) → List Item → Option (Item × List Item) → ℕ
count_taken p items none = count p items
count_taken p items (some (it, rest)) = (if p it then 1 else 0) + count p rest

count-take_out :
    (p : Item → Bool) (id : Text) (items : List Item)
    → count_taken p items (take_out id items) ≡ count p items
unfolding take_out
count-take_out p id [] = refl
count-take_out p id (x ∷ xs) = ground (arith, count-take_out p id xs)

module _ (p : Item → Bool) (blind : StatusBlind p) where
  count-with_status :
      (s : Status) (items : List Item) → count p (map (with_status s) items) ≡ count p items
  unfolding with_status
  count-with_status s [] = refl
  count-with_status s (it ∷ items) = ground (arith, blind s it, count-with_status s items)

  count_held-start : (m : Manager) → count_held p (start_if_idle m) ≡ count_held p m
  unfolding start_if_idle
  count_held-start m = from m.now_playing m.queue refl refl
    where
      from :
          (o : Option Item) (q : List Item)
          → m.now_playing ≡ o
          → m.queue ≡ q
          → count_held p (start_with o q m) ≡ count_held p m
      from (some it) q eo eq = refl
      from none [] eo eq = refl
      from none (x ∷ xs) eo eq = rw (eo, eq) (ground (arith, blind Status.playing x))

  count_one : (s : Status) (it : Item) → count p (record it { status = s } ∷ []) ≡ count p (it ∷ [])
  count_one s it = ground (arith, blind s it)

  count-retire : (s : Status) (o : Option Item) → count p (retire s o) ≡ count_option p o
  count-retire s none = refl
  count-retire s (some it) = ground (arith, blind s it)

  module _ (m : Manager) where
    approve_taken-conserves :
        (o : Option (Item × List Item))
        → count_held p (approve_taken o m).manager + count p (approve_taken o m).retired
          ≡ count_taken p m.pending o + count p m.queue + count_option p m.now_playing
    unfolding emit
    approve_taken-conserves none = omega arith
    approve_taken-conserves (some (it, rest)) =
        let new : Item = record it { status = Status.approved } in
        omega (
          arith,
          count_held-start (record m { pending = rest; queue = m.queue ++ new ∷ [] }),
          count-append p m.queue (new ∷ []),
          count_one Status.approved it,
        )

    reject_taken-conserves :
        (o : Option (Item × List Item))
        → count_held p (reject_taken o m).manager + count p (reject_taken o m).retired
          ≡ count_taken p m.pending o + count p m.queue + count_option p m.now_playing
    unfolding emit
    reject_taken-conserves none = omega arith
    reject_taken-conserves (some (it, rest)) = omega (arith, count_one Status.rejected it)

    remove_taken-conserves :
        (o : Option (Item × List Item))
        → count_held p (remove_taken o m).manager + count p (remove_taken o m).retired
          ≡ count p m.pending + count_taken p m.queue o + count_option p m.now_playing
    unfolding emit
    remove_taken-conserves none = omega arith
    remove_taken-conserves (some (it, rest)) = omega (arith, count_one Status.skipped it)

    submit-conserves :
        (fresh : Text) (now : ℕ) (it : Item)
        → count_held p (Queue.submit fresh now it m).manager
          ≡ count_held p m + count p (stamped fresh now it ∷ [])
    unfolding Queue.submit
    submit-conserves fresh now it =
        let x : Item = stamped fresh now it in
        elim (Bool-cases m.bypass) [
          | inl b ↦
              let new : Item = record x { status = Status.approved } in
              rw b (
                omega (
                  arith,
                  count_held-start (record m { queue = m.queue ++ new ∷ []; bypass = true }),
                  count-append p m.queue (new ∷ []),
                  count_one Status.approved x,
                ))
          | inr b ↦
              let new : Item = record x { status = Status.pending } in
              rw b (
                omega (
                  arith,
                  count_held-start (record m { pending = m.pending ++ new ∷ []; bypass = false }),
                  count-append p m.pending (new ∷ []),
                  count_one Status.pending x,
                ))
        ]

    ended-conserves :
        (id : Text)
        → count_held p (Queue.ended id m).manager + count p (Queue.ended id m).retired
          ≡ count_held p m
    unfolding Queue.ended
    ended-conserves id = elim (Bool-cases (is_current id m.now_playing)) [
      | inl here ↦ rw here (
          omega (
            arith,
            count_held-start (record m { now_playing = none; paused = false }),
            count-retire Status.done m.now_playing,
          ))
      | inr gone ↦ rw gone (omega (arith, count_held-start (record m { paused = false })))
    ]

    skip-conserves :
        count_held p (Queue.skip m).manager + count p (Queue.skip m).retired ≡ count_held p m
    unfolding Queue.skip
    skip-conserves = omega (
      arith,
      count_held-start (record m { now_playing = none; paused = false }),
      count-retire Status.skipped m.now_playing,
    )

    clear-conserves :
        (all : Bool)
        → count_held p (Queue.clear all m).manager + count p (Queue.clear all m).retired
          ≡ count_held p m
    unfolding Queue.clear
    clear-conserves true =
        let rejected : List Item = map (with_status Status.rejected) m.pending in
        let current : List Item = retire Status.skipped m.now_playing in
        omega (
          arith,
          count-append p (map (with_status Status.skipped) m.queue) (rejected ++ current),
          count-append p rejected current,
          count-with_status Status.skipped m.queue,
          count-with_status Status.rejected m.pending,
          count-retire Status.skipped m.now_playing,
        )
    clear-conserves false = omega (arith, count-with_status Status.skipped m.queue)

  -- Whatever a call does, the items that pass a test which ignores the status are the same in number
  -- before, with the item that the call brings in, and after, with the items that it retired.
  pub step-conserves :
      (op : Op) (m : Manager)
      → count_held p (step op m).manager + count p (step op m).retired
        ≡ count_held p m + count p (added op)
  unfolding step
  step-conserves (Op.submit fresh now it) m =
      unfold Queue.submit emit in omega (arith, submit-conserves m fresh now it)
  step-conserves (Op.approve id) m = rw (approve_lem id m) (
      omega
        (arith, approve_taken-conserves m (take_out id m.pending), count-take_out p id m.pending))
  step-conserves (Op.reject id) m = rw (reject_lem id m) (
      omega
        (arith, reject_taken-conserves m (take_out id m.pending), count-take_out p id m.pending))
  step-conserves (Op.remove id) m =
      rw (remove_lem id m)
        (omega (arith, remove_taken-conserves m (take_out id m.queue), count-take_out p id m.queue))
  step-conserves (Op.ended id) m = omega (arith, ended-conserves m id)
  step-conserves Op.skip m = omega (arith, skip-conserves m)
  step-conserves (Op.set_paused b) m = unfold Queue.set_paused in omega arith
  step-conserves (Op.clear all) m = omega (arith, clear-conserves m all)
  step-conserves (Op.set_bypass b) m = unfold Queue.set_bypass in omega arith
