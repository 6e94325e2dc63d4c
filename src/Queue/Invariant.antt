-- ===== src/Queue/Invariant.antt =====
-- What holds of a queue between two calls: each item has the status of the place where it stands,
-- and the player is idle only if no approved item waits.
use media_share.Prelude.{
  ◌≡◌, refl, Bool, true, false, Option, none, some, List, [], ◌∷◌, ◌++◌, Text, All, All-append,
  Bool-cases, ℕ, inl, inr, arith,
}
use media_share.Queue.{
  Item, Status, Manager, Outcome, stamped, is_current, emit, start_if_idle, start_with, new_manager,
}
use media_share.Queue.Find.{take_out}
use media_share.Queue
use media_share.Queue.Ops.{
  Op, step, run, run_induction, approve_lem, reject_lem, remove_lem, approve_taken, reject_taken,
  remove_taken,
}

abbrev Has : Status → Item → Type 0
Has s it = it.status ≡ s

abbrev AllOption : (Item → Type 0) → Option Item → Type 0
AllOption P none = Unit
AllOption P (some it) = P it

pub record IsValid (m : Manager) : Type 0 where
  pub pending_status : All (Has Status.pending) m.pending
  pub queue_status : All (Has Status.approved) m.queue
  pub playing_status : AllOption (Has Status.playing) m.now_playing
  pub never_idle : m.now_playing ≡ none → m.queue ≡ []

-- What `take_out` hands over, of a list whose items all have the property.
abbrev Taken : (Item → Type 0) → Option (Item × List Item) → Type 0
Taken P none = Unit
Taken P (some (it, rest)) = P it × All P rest

take_out-Taken :
    (P : Item → Type 0) (id : Text) (items : List Item) → All P items → Taken P (take_out id items)
unfolding take_out
take_out-Taken P id [] h = tt
take_out-Taken P id (x ∷ xs) h = ground (arith, take_out-Taken P id xs h.1)

start-IsValid :
    (m : Manager)
    → All (Has Status.pending) m.pending
    → All (Has Status.approved) m.queue
    → AllOption (Has Status.playing) m.now_playing
    → IsValid (start_if_idle m)
unfolding start_if_idle
start-IsValid m hp hq hn = start_lem m.now_playing m.queue refl refl
  where
    start_lem :
        (o : Option Item) (q : List Item)
        → m.now_playing ≡ o
        → m.queue ≡ q
        → IsValid (start_with o q m)
    start_lem (some it) q eo eq = ground arith
    start_lem none [] eo eq = ground arith
    start_lem none (x ∷ xs) eo eq = ground arith

module _ (m : Manager) (v : IsValid m) where
  approve-IsValid :
      (o : Option (Item × List Item))
      → Taken (Has Status.pending) o
      → IsValid (approve_taken o m).manager
  unfolding emit
  approve-IsValid none t = v
  approve-IsValid (some (it, rest)) t =
      start-IsValid _ t.1 (All-append _ m.queue _ v.queue_status (refl, tt)) v.playing_status

  reject-IsValid :
      (o : Option (Item × List Item))
      → Taken (Has Status.pending) o
      → IsValid (reject_taken o m).manager
  unfolding emit
  reject-IsValid none t = v
  reject-IsValid (some (it, rest)) t = record {
    pending_status = t.1;
    queue_status = v.queue_status;
    playing_status = v.playing_status;
    never_idle = v.never_idle;
  }

  remove-IsValid :
      (o : Option (Item × List Item))
      → Taken (Has Status.approved) o
      → (m.queue ≡ [] → o ≡ none)
      → IsValid (remove_taken o m).manager
  unfolding emit
  remove-IsValid none t e = v
  remove-IsValid (some (it, rest)) t e = record {
    pending_status = v.pending_status;
    queue_status = t.1;
    playing_status = v.playing_status;
    never_idle = λ idle. ground (arith, v.never_idle idle, e);
  }

  submit-IsValid :
      (fresh : Text) (now : ℕ) (it : Item) → IsValid (Queue.submit fresh now it m).manager
  unfolding Queue.submit
  submit-IsValid fresh now it = elim (Bool-cases m.bypass) [
    | inl b ↦
        let new : Item = record (stamped fresh now it) { status = Status.approved } in
        rw b (
          start-IsValid (record m { queue = m.queue ++ new ∷ []; bypass = true }) v.pending_status
            (All-append _ m.queue _ v.queue_status (refl, tt)) v.playing_status)
    | inr b ↦
        let new : Item = record (stamped fresh now it) { status = Status.pending } in
        rw b (
          start-IsValid (record m { pending = m.pending ++ new ∷ []; bypass = false })
            (All-append _ m.pending _ v.pending_status (refl, tt)) v.queue_status v.playing_status)
  ]

  ended-IsValid : (id : Text) → IsValid (Queue.ended id m).manager
  unfolding Queue.ended
  ended-IsValid id = elim (Bool-cases (is_current id m.now_playing)) [
    | inl here ↦ rw here (
        start-IsValid (record m { now_playing = none; paused = false }) v.pending_status
          v.queue_status tt)
    | inr gone ↦ rw gone (
        start-IsValid (record m { paused = false }) v.pending_status v.queue_status
          v.playing_status)
  ]

  skip-IsValid : IsValid (Queue.skip m).manager
  unfolding Queue.skip
  skip-IsValid =
      start-IsValid (record m { now_playing = none; paused = false }) v.pending_status
        v.queue_status tt

  clear-IsValid : (all : Bool) → IsValid (Queue.clear all m).manager
  unfolding Queue.clear
  clear-IsValid all = ground arith

-- Every method keeps the invariant.
pub step-IsValid : (op : Op) (m : Manager) → IsValid m → IsValid (step op m).manager
unfolding step
step-IsValid (Op.submit fresh now it) m v = submit-IsValid m v fresh now it
step-IsValid (Op.approve id) m v =
    rw (approve_lem id m) (approve-IsValid m v _ (take_out-Taken _ id m.pending v.pending_status))
step-IsValid (Op.reject id) m v =
    rw (reject_lem id m) (reject-IsValid m v _ (take_out-Taken _ id m.pending v.pending_status))
step-IsValid (Op.remove id) m v = rw (remove_lem id m) (
    remove-IsValid m v _ (take_out-Taken _ id m.queue v.queue_status)
      (λ e. rw e (unfold take_out in refl)))
step-IsValid (Op.ended id) m v = ended-IsValid m v id
step-IsValid Op.skip m v = skip-IsValid m v
step-IsValid (Op.set_paused p) m v = unfold Queue.set_paused in ground arith
step-IsValid (Op.clear all) m v = clear-IsValid m v all
step-IsValid (Op.set_bypass b) m v = unfold Queue.set_bypass in ground arith

pub new_manager-IsValid : (fn : Option Text) → IsValid (new_manager fn)
unfolding new_manager
new_manager-IsValid fn = ground arith

-- Whatever is called on a new queue, in whatever order, each item stands where its status says, and
-- the player is idle only if the approved queue is empty.
pub run-IsValid : (fn : Option Text) (ops : List Op) → IsValid (run ops (new_manager fn))
run-IsValid fn ops = run_induction IsValid step-IsValid ops _ (new_manager-IsValid fn)
