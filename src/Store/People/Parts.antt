-- ===== src/Store/People/Parts.antt =====
-- What the upserts leave alone: every part of the tables that the rows which they write are not in.
use media_share.Prelude.{
  ℕ, ◌≡◌, refl, ◌||◌, List, [], ◌∷◌, ◌++◌, Text, exists, same, Bool-cases, inl, inr,
}
use media_share.Random.{Rng}
use media_share.Store.Db.{Error, Streamer, Viewer, Db, Result, ok, err, exec, attempt}
use media_share.Store.Db.Parts.{Keeps, >>=-Keeps, attempt-Keeps, exec-Keeps, query_row-Keeps}
use media_share.Store.People.{
  upsert_streamer, upsert_found, get_streamer, select_streamer, insert_streamer, update_streamer,
  upsert_viewer, upsert_viewer_found, get_viewer, select_viewer, insert_viewer, update_viewer,
  viewer_at,
}

module _ {X : Type 0} (part : Db → X) where
  module _ (apart : (d : Db) (x : List Streamer) → part (record d { streamers = x }) ≡ part d) where
    insert_streamer-Keeps : (st : Streamer) → Keeps part (exec (insert_streamer st))
    unfolding insert_streamer
    insert_streamer-Keeps st = exec-Keeps part (insert_streamer st) (λ d.
        elim (Bool-cases (
          exists (λ (s : Streamer). same s.id st.id || same s.player_key st.player_key)
            d.streamers)) [
              | inl taken ↦ rw taken tt
              | inr free ↦ rw free (apart d (d.streamers ++ st ∷ []))
            ])

    update_streamer-Keeps :
        (id login name : Text) (now : ℕ) → Keeps part (exec (update_streamer id login name now))
    unfolding update_streamer
    update_streamer-Keeps id login name now =
        exec-Keeps part (update_streamer id login name now) (λ d. apart d _)

    upsert_found-Keeps :
        (rng : Rng) (now : ℕ) (id login name : Text) (r : Result Streamer)
        → Keeps part (upsert_found rng now id login name r)
    unfolding upsert_found
    upsert_found-Keeps rng now id login name (ok st) =
        >>=-Keeps part (exec (update_streamer id login name now)) _
          (update_streamer-Keeps id login name now) (λ _ w. (refl, refl))
    upsert_found-Keeps rng now id login name (err Error.not_found) =
        >>=-Keeps part (exec (insert_streamer _)) _ (insert_streamer-Keeps _) (λ _ w. (refl, refl))
    upsert_found-Keeps rng now id login name (err Error.failure) = λ w. (refl, refl)
    upsert_found-Keeps rng now id login name (err Error.unique_violation) = λ w. (refl, refl)
    upsert_found-Keeps rng now id login name (err Error.foreign_key) = λ w. (refl, refl)
    upsert_found-Keeps rng now id login name (err Error.negative_cost) = λ w. (refl, refl)
    upsert_found-Keeps rng now id login name (err Error.unauthenticated) = λ w. (refl, refl)
    upsert_found-Keeps rng now id login name (err Error.exchange_failed) = λ w. (refl, refl)

    pub upsert_streamer-Keeps :
        (rng : Rng) (now : ℕ) (id login name : Text)
        → Keeps part (upsert_streamer rng now id login name)
    unfolding upsert_streamer get_streamer
    upsert_streamer-Keeps rng now id login name =
        >>=-Keeps part (attempt (get_streamer id)) (upsert_found rng now id login name)
          (attempt-Keeps part (get_streamer id) (query_row-Keeps part (select_streamer id)))
          (upsert_found-Keeps rng now id login name)

  module _ (apart : (d : Db) (x : List Viewer) → part (record d { viewers = x }) ≡ part d) where
    insert_viewer-Keeps : (v : Viewer) → Keeps part (exec (insert_viewer v))
    unfolding insert_viewer
    insert_viewer-Keeps v = exec-Keeps part (insert_viewer v) (λ d.
        elim (Bool-cases (exists (viewer_at v.id) d.viewers)) [
          | inl taken ↦ rw taken tt
          | inr free ↦ rw free (apart d (d.viewers ++ v ∷ []))
        ])

    update_viewer-Keeps :
        (id login name : Text) (now : ℕ) → Keeps part (exec (update_viewer id login name now))
    unfolding update_viewer
    update_viewer-Keeps id login name now =
        exec-Keeps part (update_viewer id login name now) (λ d. apart d _)

    viewer_found-Keeps :
        (now : ℕ) (id login name : Text) (r : Result Viewer)
        → Keeps part (upsert_viewer_found now id login name r)
    unfolding upsert_viewer_found
    viewer_found-Keeps now id login name (ok v) =
        >>=-Keeps part (exec (update_viewer id login name now)) _
          (update_viewer-Keeps id login name now) (λ _ w. (refl, refl))
    viewer_found-Keeps now id login name (err Error.not_found) =
        >>=-Keeps part (exec (insert_viewer _)) _ (insert_viewer-Keeps _) (λ _ w. (refl, refl))
    viewer_found-Keeps now id login name (err Error.failure) = λ w. (refl, refl)
    viewer_found-Keeps now id login name (err Error.unique_violation) = λ w. (refl, refl)
    viewer_found-Keeps now id login name (err Error.foreign_key) = λ w. (refl, refl)
    viewer_found-Keeps now id login name (err Error.negative_cost) = λ w. (refl, refl)
    viewer_found-Keeps now id login name (err Error.unauthenticated) = λ w. (refl, refl)
    viewer_found-Keeps now id login name (err Error.exchange_failed) = λ w. (refl, refl)

    pub upsert_viewer-Keeps :
        (now : ℕ) (id login name : Text) → Keeps part (upsert_viewer now id login name)
    unfolding upsert_viewer get_viewer
    upsert_viewer-Keeps now id login name =
        >>=-Keeps part (attempt (get_viewer id)) (upsert_viewer_found now id login name)
          (attempt-Keeps part (get_viewer id) (query_row-Keeps part (select_viewer id)))
          (viewer_found-Keeps now id login name)
