-- ===== src/Store/People/Viewers.antt =====
-- The row that a viewer's login writes.
use media_share.Prelude.{
  ℕ, ◌≡◌, refl, ap, ◌∙◌, Option, none, some, Text, same_iff, arith, inl, inr, Option-cases, exists,
  select-append, select-update, select-fits,
}
use media_share.Store.Db.{Viewer, Db, ok, World}
use media_share.Store.People.{
  viewer_at, viewer_seen, select_viewer, update_viewer, insert_viewer, upsert_viewer,
}

abbrev new_viewer : ℕ → Text → Text → Text → Viewer
new_viewer now id login name = record {
  id = id;
  login = login;
  display_name = name;
  created_at = now;
  last_seen_at = now;
}

-- What an upsert writes, by the row that it finds.
abbrev Writes : ℕ → Text → Text → Text → Option Viewer → Db → Db → Viewer → Type 0
Writes now id login name none d d' v =
    (v ≡ new_viewer now id login name) × (insert_viewer v d ≡ ok (tt, d'))
Writes now id login name (some u) d d' v =
    (v ≡ viewer_seen login name now u) × (update_viewer id login name now d ≡ ok (tt, d'))

upsert_viewer_inv :
    (now : ℕ) (id login name : Text) (w : World) (v : Viewer)
    → (upsert_viewer now id login name w).0 ≡ ok v
    → Writes now id login name
        (select_viewer id w.db)
        w.db
        (upsert_viewer now id login name w).1.db
        v
unfolding upsert_viewer
upsert_viewer_inv now id login name w v h = elim (Option-cases (select_viewer id w.db)) [
  | inl missing ↦ rw missing (ground arith)
  | inr (u, at) ↦ rw at (ground arith)
]

module _ (now : ℕ) (id login name : Text) (d d' : Db) (v : Viewer) where
  abbrev Held : Type 0
  Held = (v.id ≡ id) × (select_viewer id d' ≡ some v)

  inserted-Held : insert_viewer v d ≡ ok (tt, d') → v ≡ new_viewer now id login name → Held
  unfolding select_viewer insert_viewer exists
  inserted-Held made is_v =
      let same_id : v.id ≡ id = ap (λ (x : Viewer). x.id) is_v in
      (same_id, ground (arith, select-append (viewer_at id) d.viewers v, same_iff v.id id))

  updated-Held :
      (u : Viewer)
      → select_viewer id d ≡ some u
      → update_viewer id login name now d ≡ ok (tt, d')
      → v ≡ viewer_seen login name now u
      → Held
  unfolding select_viewer update_viewer
  updated-Held u at made is_v =
      let fits = select-fits (viewer_at id) d.viewers u at in
      let step =
        select-update (viewer_at id) (viewer_at id) (viewer_seen login name now) d.viewers
          (λ x. refl) in
      let same_id : v.id ≡ id = ap (λ (x : Viewer). x.id) is_v ∙ (same_iff u.id id).0 fits in
      (same_id, ground (arith, step, at, fits, is_v))

  written-Held :
      (found : Option Viewer)
      → select_viewer id d ≡ found
      → Writes now id login name found d d' v
      → Held
  written-Held none at (is_v, made) = inserted-Held made is_v
  written-Held (some u) at (is_v, made) = updated-Held u at made is_v

-- A viewer's login that succeeds returns the row that the table then holds for its id.
pub upserted_viewer :
    (now : ℕ) (id login name : Text) (w : World) (v : Viewer)
    → (upsert_viewer now id login name w).0 ≡ ok v
    → (v.id ≡ id) × (select_viewer id (upsert_viewer now id login name w).1.db ≡ some v)
upserted_viewer now id login name w v h =
    written-Held now id login name w.db (upsert_viewer now id login name w).1.db v
      (select_viewer id w.db) refl (upsert_viewer_inv now id login name w v h)
