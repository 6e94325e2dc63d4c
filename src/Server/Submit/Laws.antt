-- ===== src/Server/Submit/Laws.antt =====
-- What a submission pays for and what it leaves.
use media_share.Prelude.{
  ℕ, ◌≡◌, ◌⊎◌, inl, inr, refl, Bool, true, false, not, Option, none, some, List, [], ◌∷◌, ◌++◌,
  Text, same_refl, lookup, lookup-insert, if◌then◌else◌, arith,
}
use media_share.Prelude.Int.{ℤ, pos, ltb_ℤ}
use media_share.Strings.{to_lower, trim_space}
use media_share.Store.Db.{Viewer, World}
use media_share.Store.Credits.Accounts.{IsSettled}
use media_share.Tenant.{Tenant, resolve_session}
use media_share.Tenant.Queues.{requeued}
use media_share.Queue
use media_share.Server.{
  Config, max_upload_bytes, ext_allowed, Site, Reply, fault, too_poor, accepted,
}
use media_share.Server.Forms.{ext, clamp_duration, clamp_duration-le}
use media_share.Server.Submit.{
  Form, Inputs, Upload, price, enqueue, settle, youtube_item, youtube_found, submit_youtube,
  upload_item, copied, store_upload, with_file, submit_upload, submit_kind, submit_to, remove_file,
  handle_submit,
}
use media_share.Server.Submit.Charge.{
  Billable, Charged, Paid, billable_duration-Billable, charge_submit-Charged,
  charge_submit-IsSettled,
}

-- The created item plays, or stands at the end of the queue or of the pending items.
abbrev pub Placed : Queue.Item → Queue.Manager → Queue.Manager → Type 0
Placed it m q =
    (q.now_playing ≡ some it)
    ⊎ (((before : List Queue.Item) × (q.queue ≡ before ++ it ∷ []))
        ⊎ (q.pending ≡ m.pending ++ it ∷ []))

abbrev pub Untouched : Site → Site → Type 0
Untouched s s' = (s'.registry ≡ s.registry) × (s'.sent ≡ s.sent) × (s'.world.db ≡ s.world.db)

abbrev pub Submitted : Config → Viewer → Text → Site → Reply → Site → Type 0
Submitted c v token s (fault n) s' = Untouched s s'
Submitted c v token s (too_poor cost balance) s' = Untouched s s'
Submitted c v token s (accepted it) s' =
    (t : Tenant) × (q : Queue.Manager) × (resolve_session token s.registry ≡ some t)
    × (lookup t.streamer_id s'.registry.tenants ≡ some (record t { queue = q }))
    × Placed it t.queue q
    × Billable c.credits_enabled it.duration_seconds
    × Paid c.credits_enabled (price c it.duration_seconds) v.id t.streamer_id s.world s'.world

submit-Placed_of :
    (fresh : Text) (now : ℕ) (it : Queue.Item) (m : Queue.Manager) (playing : Option Queue.Item)
    (queue : List Queue.Item) (bypass : Bool)
    → (m.now_playing ≡ playing) × (m.queue ≡ queue) × (m.bypass ≡ bypass)
    → Placed (Queue.submit fresh now it m).result m (Queue.submit fresh now it m).manager
unfolding Queue.submit Queue.start_if_idle
submit-Placed_of fresh now it m playing queue false (e, e', e'') = inr (inr (ground arith))
submit-Placed_of fresh now it m none [] true (e, e', e'') = inl (ground arith)
submit-Placed_of fresh now it m none (x ∷ xs) true (e, e', e'') = inr (inl (xs, ground arith))
submit-Placed_of fresh now it m (some y) xs true (e, e', e'') = inr (inl (xs, ground arith))

submit-Placed :
    (fresh : Text) (now : ℕ) (it : Queue.Item) (m : Queue.Manager)
    → Placed (Queue.submit fresh now it m).result m (Queue.submit fresh now it m).manager
submit-Placed fresh now it m =
    submit-Placed_of fresh now it m m.now_playing m.queue m.bypass (refl, refl, refl)

-- What a submission does to the tenants: nothing, or the queue of the token's tenant takes an item.
abbrev pub Requeues : Text → Site → Site → Type 0
Requeues token s s' =
    (s'.registry ≡ s.registry)
    ⊎ ((t : Tenant) × (fresh : Text) × (now : ℕ) × (it : Queue.Item) × (resolve_session token
            s.registry
          ≡ some t)
        × (s'.registry
            ≡ requeued t.streamer_id t (Queue.submit fresh now it t.queue).manager s.registry))

record Good (c : Config) (v : Viewer) (token : Text) (s : Site) (r : Reply × Site) : Type 0 where
  holds : Submitted c v token s r.0 r.1
  settled : IsSettled r.1.world
  requeues : Requeues token s r.1

-- The end of both kinds of submission. `now` is the state behind the handling of the file.
settle-Good :
    (c : Config) (i : Inputs) (v : Viewer) (token : Text) (drop : List Text → List Text)
    (t : Tenant) (it : Queue.Item) (s now : Site) (verdict : Option Reply) (w' : World)
    → resolve_session token s.registry ≡ some t
    → (now.registry ≡ s.registry) × (now.sent ≡ s.sent)
    → Billable c.credits_enabled it.duration_seconds
    → Charged c.credits_enabled (price c it.duration_seconds) v.id t.streamer_id s.world verdict w'
    → IsSettled w'
    → Good c v token s (settle drop i t it now (verdict, w'))
unfolding settle enqueue
settle-Good c i v token drop t it s now none w' at same_site billable paid settled =
    let o = Queue.submit i.item_id i.submitted_at it t.queue in
    record {
      settled = settled;
      requeues = inr (t, i.item_id, i.submitted_at, it, at, ground (arith, same_site.0));
      holds = (
        t,
        o.manager,
        at,
        ground (
          arith,
          lookup-insert t.streamer_id t.streamer_id (record t { queue = o.manager })
              now.registry.tenants,
          same_refl t.streamer_id,
        ),
        submit-Placed i.item_id i.submitted_at it t.queue,
        unfold Queue.submit in billable,
        unfold Queue.submit in paid,
      );
    }
settle-Good c i v token drop t it s now (some (fault n)) w' at same_site billable kept settled =
    record {
      settled = settled;
      requeues = inl same_site.0;
      holds = (same_site.0, same_site.1, kept.0);
    }
settle-Good c i v token drop t it s now (some (too_poor n b)) w' at same_site billable kept
      settled =
    record {
      settled = settled;
      requeues = inl same_site.0;
      holds = (same_site.0, same_site.1, kept.0);
    }
settle-Good c i v token drop t it s now (some (accepted x)) w' at same_site billable kept settled =
    ground arith

-- A property of both branches is one of the conditional.
on_branches :
    {A : Type 0} (P : A → Type 0) (b : Bool) (x y : A) → P x → P y → P (if b then x else y)
on_branches P true x y hx hy = hx
on_branches P false x y hx hy = hy

module _ (c : Config) (i : Inputs) (v : Viewer) (f : Form) (token : Text) (t : Tenant) (s : Site)
    (h : IsSettled s.world) (at : resolve_session token s.registry ≡ some t) where
  branch :
      (b : Bool) (x y : Reply × Site)
      → Good c v token s x
      → Good c v token s y
      → Good c v token s (if b then x else y)
  branch = on_branches (Good c v token s)

  answered : (n : ℕ) (files : List Text) → Good c v token s (fault n, record s { files = files })
  answered n files = record { holds = (refl, refl, refl); settled = h; requeues = inl refl }

  found-Good : (link : Option (Text × ℤ)) → Good c v token s (youtube_found c i v f t link s)
  unfolding youtube_found youtube_item
  found-Good none = answered 400 s.files
  found-Good (some link) =
      let it = youtube_item c i v f link in
      settle-Good c i v token (λ files. files) t it s s _ _ at (refl, refl)
        (billable_duration-Billable c (clamp_duration f.duration 10)
          (clamp_duration-le f.duration 10 (omega arith)))
        (charge_submit-Charged c i v t.streamer_id it.duration_seconds it.id s.world h)
        (charge_submit-IsSettled c i v t.streamer_id it.duration_seconds it.id s.world h)

  copied-Good :
      (u : Upload) (stored : Text) (n : Option ℕ) (files : List Text)
      → Good c v token s (copied c i v f u t stored n (record s { files = files }))
  unfolding copied upload_item
  copied-Good u stored none files = answered 500 (remove_file i.disk.removable stored files)
  copied-Good u stored (some written) files =
      let it = upload_item c i v f u stored in
      branch _ _ _ (answered 413 _) (
        settle-Good c i v token (remove_file i.disk.removable stored) t it s
          (record s { files = files }) _ _ at (refl, refl)
          (billable_duration-Billable c (clamp_duration f.duration 0)
            (clamp_duration-le f.duration 0 (omega arith)))
          (charge_submit-Charged c i v t.streamer_id it.duration_seconds it.id s.world h)
          (charge_submit-IsSettled c i v t.streamer_id it.duration_seconds it.id s.world h))

  with_file-Good : (u : Option Upload) → Good c v token s (with_file c i v f t u s)
  unfolding with_file store_upload
  with_file-Good none = record { holds = (refl, refl, refl); settled = h; requeues = inl refl }
  with_file-Good (some u) =
      let stored = i.stored_id ++ to_lower (ext u.filename) in
      branch (ltb_ℤ (max_upload_bytes c) (pos u.size)) _ _ (answered 413 s.files) (
        branch (not (ext_allowed c (to_lower (ext u.filename)))) _ _ (answered 400 s.files) (
          branch (not i.disk.made) _ _ (answered 500 s.files) (
            branch (not i.disk.created) _ _ (answered 500 s.files)
              (copied-Good u stored i.disk.copied (stored ∷ s.files)))))

  submit_kind-Good : Good c v token s (submit_kind c i v f t s)
  unfolding submit_kind submit_youtube submit_upload
  submit_kind-Good =
      branch _ _ _ (found-Good _) (branch _ _ _ (with_file-Good f.file) (answered 400 s.files))

submit_to-Good :
    (c : Config) (i : Inputs) (v : Viewer) (f : Form) (token : Text) (s : Site) (t : Option Tenant)
    → IsSettled s.world
    → resolve_session token s.registry ≡ t
    → Good c v token s (submit_to c i v f t s)
unfolding submit_to
submit_to-Good c i v f token s none h at = record {
  holds = (refl, refl, refl);
  settled = h;
  requeues = inl refl;
}
submit_to-Good c i v f token s (some t) h at = submit_kind-Good c i v f token t s h at

handle_submit-Good :
    (c : Config) (i : Inputs) (v : Viewer) (f : Form) (s : Site)
    → IsSettled s.world
    → Good c v (trim_space f.session) s (handle_submit c i (some v) (some f) s)
unfolding handle_submit
handle_submit-Good c i v f s h = submit_to-Good c i v f (trim_space f.session) s _ h refl

-- A submission keeps the tables settled.
pub handle_submit-IsSettled :
    (c : Config) (i : Inputs) (v : Option Viewer) (f : Option Form) (s : Site)
    → IsSettled s.world
    → IsSettled (handle_submit c i v f s).1.world
unfolding handle_submit
handle_submit-IsSettled c i none f s h = h
handle_submit-IsSettled c i (some v) none s h = h
handle_submit-IsSettled c i (some v) (some f) s h = (handle_submit-Good c i v f s h).settled

pub handle_submit-Requeues :
    (c : Config) (i : Inputs) (v : Option Viewer) (f : Form) (s : Site)
    → IsSettled s.world
    → Requeues (trim_space f.session) s (handle_submit c i v (some f) s).1
unfolding handle_submit
handle_submit-Requeues c i none f s h = inl refl
handle_submit-Requeues c i (some v) f s h = (handle_submit-Good c i v f s h).requeues

-- Over settled tables every submission of a viewer ends in one of two ways. It is accepted: then the
-- token led to a tenant, the created item plays or is the last of that tenant's queue or pending
-- items, it runs for at most an hour and, under credits, for at least ten seconds, and under credits
-- the viewer had the price of exactly that length in that channel and nothing but it was taken.
-- Or it is answered otherwise: then no tenant and no table changed and nothing was sent.
pub handle_submit-Submitted :
    (c : Config) (i : Inputs) (v : Viewer) (f : Form) (s : Site)
    → IsSettled s.world
    → Submitted c v
        (trim_space f.session)
        s
        (handle_submit c i (some v) (some f) s).0
        (handle_submit c i (some v) (some f) s).1
handle_submit-Submitted c i v f s h = (handle_submit-Good c i v f s h).holds
