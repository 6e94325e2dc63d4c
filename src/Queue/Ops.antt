-- ===== src/Queue/Ops.antt =====
-- The methods of the queue's Manager as the steps of one machine, and the removals in terms of
-- `take_out`.
use media_share.Prelude.{
  ℕ, ◌≡◌, refl, ◌∙◌, ap, Bool, true, false, Option, none, some, List, [], ◌∷◌, ◌++◌, Text,
}
use media_share.Queue
use media_share.Queue.{
  Item, Status, Manager, Call, Outcome, emit, unchanged, start_if_idle, find_by_id, remove_at,
  new_manager, approve_found, reject_found, remove_found,
}
use media_share.Queue.Find.{take_out, removed, removed-find_by_id}

-- A call of a method; `submit` carries the fresh id and the time of the call.
pub data Op : Type 0 where
  submit : Text → ℕ → Item → Op
  approve reject remove ended : Text → Op
  skip : Op
  set_paused clear set_bypass : Bool → Op

abbrev forget : {A : Type 0} → Outcome A → Outcome (Unit {0})
forget o = record { manager = o.manager; result = tt; retired = o.retired; calls = o.calls }

unfoldable pub step : Op → Manager → Outcome (Unit {0})
step (submit fresh now it) m = forget (Queue.submit fresh now it m)
step (approve id) m = forget (Queue.approve id m)
step (reject id) m = forget (Queue.reject id m)
step (remove id) m = forget (Queue.remove id m)
step (ended id) m = Queue.ended id m
step skip m = Queue.skip m
step (set_paused p) m = Queue.set_paused p m
step (clear all) m = Queue.clear all m
step (set_bypass enabled) m = Queue.set_bypass enabled m

-- A run of calls, whatever their order.
unfoldable pub run : List Op → Manager → Manager
run [] m = m
run (op ∷ ops) m = run ops (step op m).manager

abbrev pub approve_taken : Option (Item × List Item) → Manager → Outcome Bool
approve_taken none m = unchanged m false
approve_taken (some (it, rest)) m =
    emit
      (start_if_idle (record m {
        pending = rest;
        queue = m.queue ++ record it { status = Status.approved } ∷ [];
      }))
      true []

abbrev pub reject_taken : Option (Item × List Item) → Manager → Outcome Bool
reject_taken none m = unchanged m false
reject_taken (some (it, rest)) m =
    emit (record m { pending = rest }) true (record it { status = Status.rejected } ∷ [])

abbrev pub remove_taken : Option (Item × List Item) → Manager → Outcome Bool
remove_taken none m = unchanged m false
remove_taken (some (it, rest)) m =
    emit (record m { queue = rest }) true (record it { status = Status.skipped } ∷ [])

module _ (m : Manager) where
  approve-removed :
      (o : Option (Item × ℕ)) → approve_found o m ≡ approve_taken (removed m.pending o) m
  unfolding approve_found
  approve-removed none = refl
  approve-removed (some (it, i)) = refl

  reject-removed : (o : Option (Item × ℕ)) → reject_found o m ≡ reject_taken (removed m.pending o) m
  unfolding reject_found
  reject-removed none = refl
  reject-removed (some (it, i)) = refl

  remove-removed : (o : Option (Item × ℕ)) → remove_found o m ≡ remove_taken (removed m.queue o) m
  unfolding remove_found
  remove-removed none = refl
  remove-removed (some (it, i)) = refl

module _ (id : Text) (m : Manager) where
  pub approve_lem : Queue.approve id m ≡ approve_taken (take_out id m.pending) m
  unfolding Queue.approve
  approve_lem =
      approve-removed m (find_by_id m.pending id)
      ∙ ap (λ o. approve_taken o m) (removed-find_by_id m.pending id)

  pub reject_lem : Queue.reject id m ≡ reject_taken (take_out id m.pending) m
  unfolding Queue.reject
  reject_lem =
      reject-removed m (find_by_id m.pending id)
      ∙ ap (λ o. reject_taken o m) (removed-find_by_id m.pending id)

  pub remove_lem : Queue.remove id m ≡ remove_taken (take_out id m.queue) m
  unfolding Queue.remove
  remove_lem =
      remove-removed m (find_by_id m.queue id)
      ∙ ap (λ o. remove_taken o m) (removed-find_by_id m.queue id)

-- A property that every call keeps holds after any run.
pub run_induction :
    (P : Manager → Type 0)
    → ((op : Op) (m : Manager) → P m → P (step op m).manager)
    → (ops : List Op) (m : Manager) → P m
    → P (run ops m)
unfolding run
run_induction P keep [] m h = h
run_induction P keep (op ∷ ops) m h = run_induction P keep ops (step op m).manager (keep op m h)
