-- ===== src/Queue/Publish.antt =====
-- What the subscribers of a queue are told.
use media_share.Prelude.{
  ℕ, ◌≡◌, refl, ◌⊎◌, inl, inr, Bool, true, false, Option, none, some, List, [], ◌∷◌, Text, arith,
  Bool-cases,
}
use media_share.Queue
use media_share.Queue.{
  Item, Manager, Call, Outcome, snapshot, emit, start_if_idle, start_with, enqueue, stamped,
  is_current,
}
use media_share.Queue.Find.{take_out}
use media_share.Queue.Ops.{
  Op, step, approve_taken, reject_taken, remove_taken, approve_lem, reject_lem, remove_lem,
}

abbrev call_of : Option Text → Manager → Call
call_of fn m = record { callback = fn; snapshot = snapshot m }

-- Either nothing happened and nobody was called, or the callback of the manager got one snapshot, of
-- the state that the method left. The callback stays.
abbrev pub Publishes : Manager → {A : Type 0} → Outcome A → Type 0
Publishes m o =
    (o.manager.broadcast ≡ m.broadcast)
    × (((o.calls ≡ []) × (o.manager ≡ m) × (o.retired ≡ []))
        ⊎ (o.calls ≡ call_of m.broadcast o.manager ∷ []))

broadcast-start : (m : Manager) → (start_if_idle m).broadcast ≡ m.broadcast
unfolding start_if_idle
broadcast-start m = ground arith

broadcast-submit :
    (fresh : Text) (now : ℕ) (it : Item) (m : Manager)
    → (Queue.submit fresh now it m).manager.broadcast ≡ m.broadcast
unfolding Queue.submit
broadcast-submit fresh now it m = ground (arith, broadcast-start (enqueue (stamped fresh now it) m))

emit-Publishes :
    (m : Manager) {A : Type 0} (m' : Manager) (a : A) (retired : List Item)
    → m'.broadcast ≡ m.broadcast
    → Publishes m (emit m' a retired)
unfolding emit
emit-Publishes m m' a retired e = (e, inr (rw e))

module _ (m : Manager) where
  approve-Publishes : (o : Option (Item × List Item)) → Publishes m (approve_taken o m)
  approve-Publishes none = (refl, inl (refl, refl, refl))
  approve-Publishes (some (it, rest)) = emit-Publishes m _ true [] (broadcast-start _)

  reject-Publishes : (o : Option (Item × List Item)) → Publishes m (reject_taken o m)
  reject-Publishes none = (refl, inl (refl, refl, refl))
  reject-Publishes (some (it, rest)) = emit-Publishes m _ true _ refl

  remove-Publishes : (o : Option (Item × List Item)) → Publishes m (remove_taken o m)
  remove-Publishes none = (refl, inl (refl, refl, refl))
  remove-Publishes (some (it, rest)) = emit-Publishes m _ true _ refl

  submit-Publishes :
      (fresh : Text) (now : ℕ) (it : Item) → Publishes m (Queue.submit fresh now it m)
  submit-Publishes fresh now it =
      let sent = broadcast-submit fresh now it m in (sent, inr (rw_submit sent))
    where
      rw_submit :
          (Queue.submit fresh now it m).manager.broadcast ≡ m.broadcast
          → (Queue.submit fresh now it m).calls
            ≡ call_of m.broadcast (Queue.submit fresh now it m).manager ∷ []
      rw_submit e = unfold Queue.submit in rw e

  ended-Publishes : (id : Text) → Publishes m (Queue.ended id m)
  unfolding Queue.ended
  ended-Publishes id = elim (Bool-cases (is_current id m.now_playing)) [
    | inl here ↦ rw here (
        emit-Publishes m _ tt _ (broadcast-start (record m { now_playing = none; paused = false })))
    | inr gone ↦ rw gone (emit-Publishes m _ tt _ (broadcast-start (record m { paused = false })))
  ]

  skip-Publishes : Publishes m (Queue.skip m)
  unfolding Queue.skip
  skip-Publishes =
      emit-Publishes m _ tt _ (broadcast-start (record m { now_playing = none; paused = false }))

  set_paused-Publishes : (p : Bool) → Publishes m (Queue.set_paused p m)
  unfolding Queue.set_paused
  set_paused-Publishes p = emit-Publishes m _ tt _ refl

  clear-Publishes : (all : Bool) → Publishes m (Queue.clear all m)
  unfolding Queue.clear
  clear-Publishes true = emit-Publishes m _ tt _ refl
  clear-Publishes false = emit-Publishes m _ tt _ refl

  set_bypass-Publishes : (b : Bool) → Publishes m (Queue.set_bypass b m)
  unfolding Queue.set_bypass
  set_bypass-Publishes b = emit-Publishes m _ tt _ refl

-- Every method that changes the manager calls its callback once, with a snapshot of the state it
-- leaves; a method that calls nobody has changed nothing and retired nothing.
pub step-Publishes : (op : Op) (m : Manager) → Publishes m (step op m)
unfolding step
step-Publishes (Op.submit fresh now it) m = submit-Publishes m fresh now it
step-Publishes (Op.approve id) m =
    rw (approve_lem id m) (approve-Publishes m (take_out id m.pending))
step-Publishes (Op.reject id) m = rw (reject_lem id m) (reject-Publishes m (take_out id m.pending))
step-Publishes (Op.remove id) m = rw (remove_lem id m) (remove-Publishes m (take_out id m.queue))
step-Publishes (Op.ended id) m = ended-Publishes m id
step-Publishes Op.skip m = skip-Publishes m
step-Publishes (Op.set_paused p) m = set_paused-Publishes m p
step-Publishes (Op.clear all) m = clear-Publishes m all
step-Publishes (Op.set_bypass b) m = set_bypass-Publishes m b
