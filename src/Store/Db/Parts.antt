-- ===== src/Store/Db/Parts.antt =====
-- Calls that leave a part of the tables as it was.
use media_share.Prelude.{◌+◌, ◌≡◌, refl, ◌∙◌, Option, Bool-cases, inl, inr, arith}
use media_share.Store.Db.{
  Db, World, Result, ok, err, Sql, ◌>>=◌, attempt, exec, query_row, go_on, applied,
}

-- The part, and the transaction, are as they were.
abbrev pub Keeps : {A X : Type 0} → (Db → X) → Sql A → Type 0
Keeps part m = (w : World) → (part (m w).1.db ≡ part w.db) × ((m w).1.saved ≡ w.saved)

-- A statement on the tables `d` that leaves the part, if it succeeds.
abbrev pub Apart : {A X : Type 0} → (Db → X) → Db → Result (A × Db) → Type 0
Apart part d (ok (a, d')) = part d' ≡ part d
Apart part d (err e) = Unit

module _ {X : Type 0} (part : Db → X) where
  go_on-Keeps :
      {A B : Type 0} (r : Result A × World) (k : A → Sql B)
      → ((a : A) → Keeps part (k a))
      → (part (go_on r k).1.db ≡ part r.1.db) × ((go_on r k).1.saved ≡ r.1.saved)
  go_on-Keeps (ok a, w) k later = later a w
  go_on-Keeps (err e, w) k later = (refl, refl)

  pub >>=-Keeps :
      {A B : Type 0} (m : Sql A) (k : A → Sql B)
      → Keeps part m
      → ((a : A) → Keeps part (k a))
      → Keeps part (m >>= k)
  >>=-Keeps m k first later w =
      let r = go_on-Keeps (m w) k later in let (kept, idle) = first w in (r.0 ∙ kept, r.1 ∙ idle)

  pub attempt-Keeps : {A : Type 0} (m : Sql A) → Keeps part m → Keeps part (attempt m)
  attempt-Keeps m first w = first w

  applied-keeps :
      {A : Type 0} (r : Result (A × Db)) (w : World)
      → Apart part w.db r
      → (part (applied r w).1.db ≡ part w.db) × ((applied r w).1.saved ≡ w.saved)
  applied-keeps (ok (a, d)) w blind = (blind, refl)
  applied-keeps (err e) w blind = (refl, refl)

  -- A statement that writes elsewhere.
  pub exec-Keeps :
      {A : Type 0} (f : Db → Result (A × Db))
      → ((d : Db) → Apart part d (f d))
      → Keeps part (exec f)
  unfolding exec
  exec-Keeps f blind w = elim (Bool-cases (w.faults w.calls)) [
    | inl fails ↦ rw fails (refl, refl)
    | inr works ↦ rw works (applied-keeps (f w.db) (record w { calls = w.calls + 1 }) (blind w.db))
  ]

  pub query_row-Keeps : {A : Type 0} (f : Db → Option A) → Keeps part (query_row f)
  unfolding query_row
  query_row-Keeps f w = (ground arith, ground arith)

go_on-eq-ok :
    {A B : Type 0} (r : Result A × World) (k : A → Sql B) (b : B)
    → (go_on r k).0 ≡ ok b
    → (a : A) × (r.0 ≡ ok a) × ((k a r.1).0 ≡ ok b) × ((go_on r k).1 ≡ (k a r.1).1)
go_on-eq-ok (ok a, w) k b h = (a, refl, h, refl)
go_on-eq-ok (err e, w) k b h = cc

-- What calls in turn went through, if they succeed.
pub >>=-eq-ok :
    {A B : Type 0} (m : Sql A) (k : A → Sql B) (w : World) (b : B)
    → ((m >>= k) w).0 ≡ ok b
    → (a : A) × ((m w).0 ≡ ok a) × ((k a (m w).1).0 ≡ ok b) × (((m >>= k) w).1 ≡ (k a (m w).1).1)
>>=-eq-ok m k w b h = go_on-eq-ok (m w) k b h
