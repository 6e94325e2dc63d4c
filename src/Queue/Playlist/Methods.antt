-- ===== src/Queue/Playlist/Methods.antt =====
-- Each method of the queue against the playlist.
use media_share.Prelude.{
  ℕ, ◌≡◌, refl, ap, Bool, true, false, Option, none, some, List, [], ◌∷◌, ◌++◌, Text, arith,
  Bool-cases, inl, inr, append-nil,
}
use media_share.Queue
use media_share.Queue.{
  Item, Status, Manager, Outcome, stamped, is_current, emit, start_if_idle, start_with, with_status,
  new_manager,
}
use media_share.Queue.Find.{take_out}
use media_share.Queue.Invariant.{IsValid}
use media_share.Queue.Ops.{
  Op, step, approve_taken, reject_taken, remove_taken, approve_lem, reject_lem, remove_lem,
}
use media_share.Queue.Playlist.{
  bare, bares, playing_first, playlist, without, first_with, drop_head, keep_head, plays, spec,
}

playlist-start : (m : Manager) → playlist (start_if_idle m) ≡ playlist m
unfolding start_if_idle
playlist-start m = from m.now_playing m.queue refl refl
  where
    from :
        (o : Option Item) (q : List Item)
        → m.now_playing ≡ o
        → m.queue ≡ q
        → playlist (start_with o q m) ≡ playlist m
    from (some it) q eo eq = refl
    from none [] eo eq = refl
    from none (x ∷ xs) eo eq = rw (eo, eq) refl

bares-append : (xs ys : List Item) → bares (xs ++ ys) ≡ bares xs ++ bares ys
bares-append [] ys = refl
bares-append (x ∷ xs) ys = ap (◌∷◌ (bare x)) (bares-append xs ys)

playing_first-append :
    (o : Option Item) (xs ys : List Item)
    → bares (playing_first o (xs ++ ys)) ≡ bares (playing_first o xs) ++ bares ys
playing_first-append none xs ys = bares-append xs ys
playing_first-append (some it) xs ys = ap (◌∷◌ (bare it)) (bares-append xs ys)

-- `take_out` is the specification's `without` and `first_with`.
abbrev rest_of : List Item → Option (Item × List Item) → List Item
rest_of items none = items
rest_of items (some (it, rest)) = rest

abbrev found_of : Option (Item × List Item) → List Item
found_of none = []
found_of (some (it, rest)) = it ∷ []

without-bares :
    (id : Text) (items : List Item)
    → without id (bares items) ≡ bares (rest_of items (take_out id items))
unfolding take_out
without-bares id [] = refl
without-bares id (it ∷ items) = ground (arith, without-bares id items)

first_with-bares :
    (id : Text) (items : List Item)
    → first_with id (bares items) ≡ bares (found_of (take_out id items))
unfolding take_out
first_with-bares id [] = refl
first_with-bares id (it ∷ items) = ground (arith, first_with-bares id items)

module _ (m : Manager) where
  playlist-approve_taken :
      (o : Option (Item × List Item))
      → playlist (approve_taken o m).manager ≡ record {
        waiting = bares (rest_of m.pending o);
        line = bares (playing_first m.now_playing m.queue) ++ bares (found_of o);
        paused = m.paused;
        bypass = m.bypass;
      }
  unfolding emit
  playlist-approve_taken none =
      ground (arith, append-nil (bares (playing_first m.now_playing m.queue)))
  playlist-approve_taken (some (it, rest)) =
      let new : Item = record it { status = Status.approved } in
      ground (
        arith,
        playlist-start (record m { pending = rest; queue = m.queue ++ new ∷ [] }),
        playing_first-append m.now_playing m.queue (new ∷ []),
      )

  playlist-reject_taken :
      (o : Option (Item × List Item))
      → playlist (reject_taken o m).manager
        ≡ record (playlist m) { waiting = bares (rest_of m.pending o) }
  unfolding emit
  playlist-reject_taken none = refl
  playlist-reject_taken (some (it, rest)) = refl

  playlist-remove_taken :
      (o : Option (Item × List Item))
      → playlist (remove_taken o m).manager
        ≡ record (playlist m) { line = bares (playing_first m.now_playing (rest_of m.queue o)) }
  unfolding emit
  playlist-remove_taken none = refl
  playlist-remove_taken (some (it, rest)) = refl

  submit-spec :
      (fresh : Text) (now : ℕ) (it : Item)
      → playlist (Queue.submit fresh now it m).manager ≡ spec (Op.submit fresh now it) (playlist m)
  unfolding Queue.submit spec
  submit-spec fresh now it =
      let x : Item = stamped fresh now it in
      elim (Bool-cases m.bypass) [
        | inl b ↦
            let new : Item = record x { status = Status.approved } in
            rw (b, playlist-start (record m { queue = m.queue ++ new ∷ []; bypass = true }))
              (rw (playing_first-append m.now_playing m.queue (new ∷ [])))
        | inr b ↦
            let new : Item = record x { status = Status.pending } in
            rw (b, playlist-start (record m { pending = m.pending ++ new ∷ []; bypass = false }))
              (rw (bares-append m.pending (new ∷ [])))
      ]

-- The line of a valid manager starts with what plays.
module _ (f : List Item → List Item) where
  keep_head-line :
      (o : Option Item) (q q' : List Item)
      → (o ≡ none → q ≡ [])
      → (q ≡ [] → q' ≡ [])
      → f (bares q) ≡ bares q'
      → keep_head f (bares (playing_first o q)) ≡ bares (playing_first o q')
  keep_head-line none [] q' idle gone e = ground (arith, gone)
  keep_head-line none (x ∷ q) q' idle gone e = cc (idle refl)
  keep_head-line (some it) q q' idle gone e = ap (◌∷◌ (bare it)) e

plays-is_current :
    (id : Text) (o : Option Item) (q : List Item)
    → (o ≡ none → q ≡ [])
    → plays id (bares (playing_first o q)) ≡ is_current id o
unfolding is_current
plays-is_current id none [] idle = refl
plays-is_current id none (x ∷ q) idle = cc (idle refl)
plays-is_current id (some it) q idle = refl

drop_head-line :
    (o : Option Item) (q : List Item)
    → (o ≡ none → q ≡ [])
    → drop_head (bares (playing_first o q)) ≡ bares q
drop_head-line none [] idle = refl
drop_head-line none (x ∷ q) idle = cc (idle refl)
drop_head-line (some it) q idle = refl

module _ (m : Manager) (v : IsValid m) where
  ended-spec : (id : Text) → playlist (Queue.ended id m).manager ≡ spec (Op.ended id) (playlist m)
  unfolding Queue.ended spec
  ended-spec id = elim (Bool-cases (is_current id m.now_playing)) [
    | inl here ↦ rw (
      plays-is_current id m.now_playing m.queue v.never_idle,
      here,
      playlist-start (record m { now_playing = none; paused = false }),
      drop_head-line m.now_playing m.queue v.never_idle,
    )
    | inr gone ↦ rw (
      plays-is_current id m.now_playing m.queue v.never_idle,
      gone,
      playlist-start (record m { paused = false }),
    )
  ]

  skip-spec : playlist (Queue.skip m).manager ≡ spec Op.skip (playlist m)
  unfolding Queue.skip spec
  skip-spec = rw (
    playlist-start (record m { now_playing = none; paused = false }),
    drop_head-line m.now_playing m.queue v.never_idle,
  )

  clear-spec :
      (all : Bool) → playlist (Queue.clear all m).manager ≡ spec (Op.clear all) (playlist m)
  unfolding Queue.clear spec
  clear-spec true = refl
  clear-spec false =
      rw (keep_head-line (λ _. []) m.now_playing m.queue [] v.never_idle (λ _. refl) refl)

-- Each method of a valid queue does to the playlist what the specification says.
pub step-spec :
    (op : Op) (m : Manager) → IsValid m → playlist (step op m).manager ≡ spec op (playlist m)
unfolding step
step-spec (Op.submit fresh now it) m v = submit-spec m fresh now it
step-spec (Op.approve id) m v =
    unfold spec in
    rw (
      approve_lem id m,
      playlist-approve_taken m (take_out id m.pending),
      without-bares id m.pending,
      first_with-bares id m.pending,
    )
step-spec (Op.reject id) m v =
    unfold spec in
    rw
      (reject_lem id m, playlist-reject_taken m (take_out id m.pending), without-bares id m.pending)
step-spec (Op.remove id) m v =
    unfold spec in
    rw (
      remove_lem id m,
      playlist-remove_taken m (take_out id m.queue),
      keep_head-line (without id) m.now_playing m.queue (rest_of m.queue (take_out id m.queue))
          v.never_idle (λ e. rw e (unfold take_out in refl)) (without-bares id m.queue),
    )
step-spec (Op.ended id) m v = ended-spec m v id
step-spec Op.skip m v = skip-spec m v
step-spec (Op.set_paused p) m v = unfold Queue.set_paused spec in refl
step-spec (Op.clear all) m v = clear-spec m v all
step-spec (Op.set_bypass b) m v = unfold Queue.set_bypass spec in refl
