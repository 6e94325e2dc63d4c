-- ===== src/Prelude/Tables.antt =====
-- The SQL statements of the program over a table that is a list of rows: SELECT of one row, UPDATE,
-- DELETE and the tests of the constraints.
use Prim.Native.Nat.{ℕ, ◌+◌}
use mathlib.Core.Path.{◌≡◌, refl}
use mathlib.Core.Bool.{Bool, true, false, ◌||◌}
use mathlib.Core.List.{List, [], ◌∷◌, ◌++◌}
use mathlib.Core.Option.{Option, none, some}
use native.Mathlib.Omega.{arith}
use media_share.Prelude.Tests.{if◌then◌else◌, is_some}

module _ {ℓ} {R : Type ℓ} where
  -- SELECT … WHERE p, read by QueryRow: the first row that fits
  unfoldable pub select : (R → Bool) → List R → Option R
  select p [] = none
  select p (r ∷ t) = if p r then some r else select p t

  -- UPDATE … SET f WHERE p
  unfoldable pub update : (R → Bool) → (R → R) → List R → List R
  update p f [] = []
  update p f (r ∷ t) = (if p r then f r else r) ∷ update p f t

  -- DELETE … WHERE p
  unfoldable pub delete_where : (R → Bool) → List R → List R
  delete_where p [] = []
  delete_where p (r ∷ t) = let rest = delete_where p t in if p r then rest else r ∷ rest

  -- does a row fit
  unfoldable pub exists : (R → Bool) → List R → Bool
  exists p t = is_some (select p t)

  -- how many rows fit
  unfoldable pub count_where : (R → Bool) → List R → ℕ
  count_where p [] = 0
  count_where p (r ∷ t) = (if p r then 1 else 0) + count_where p t

  -- the row that a later INSERT adds stands behind the others
  pub select-append :
      (p : R → Bool) (t : List R) (r : R)
      → select p (t ++ r ∷ []) ≡ (if exists p t then select p t else if p r then some r else none)
  unfolding select exists
  select-append p [] r = ground arith
  select-append p (s ∷ t) r = ground (arith, select-append p t r)

  -- no row that fits is left
  pub select-delete_where : (p : R → Bool) (t : List R) → select p (delete_where p t) ≡ none
  unfolding select delete_where
  select-delete_where p [] = refl
  select-delete_where p (r ∷ t) = ground (arith, select-delete_where p t)

  -- An update that the test does not notice: the row read is the old one, updated.
  pub select-update :
      (p q : R → Bool) (f : R → R) (t : List R)
      → ((r : R) → p (f r) ≡ p r)
      → select p (update q f t)
        ≡ elim (select p t) [ none ↦ none | some r ↦ some (if q r then f r else r) ]
  unfolding select update
  select-update p q f [] blind = refl
  select-update p q f (r ∷ t) blind = ground (arith, blind r, select-update p q f t blind)

  pub exists-append :
      (p : R → Bool) (t : List R) (r : R) → exists p (t ++ r ∷ []) ≡ (exists p t || p r)
  unfolding exists
  exists-append p t r = ground (arith, select-append p t r)

  pub exists-update :
      (p q : R → Bool) (f : R → R) (t : List R)
      → ((r : R) → p (f r) ≡ p r)
      → exists p (update q f t) ≡ exists p t
  unfolding exists
  exists-update p q f t blind = ground (arith, select-update p q f t blind)

  -- The row read fits.
  pub select-fits : (p : R → Bool) (t : List R) (r : R) → select p t ≡ some r → p r ≡ true
  unfolding select
  select-fits p [] r e = cc
  select-fits p (x ∷ t) r e = ground (arith, select-fits p t r)

  -- A row that is read behind a DELETE was not meant by it.
  pub select_of_delete :
      (p q : R → Bool) (t : List R) (r : R)
      → select p (delete_where q t) ≡ some r
      → (q r ≡ false) × (p r ≡ true)
  unfolding select delete_where
  select_of_delete p q [] r e = cc
  select_of_delete p q (x ∷ t) r e = ground (arith, select_of_delete p q t r)

  -- The row that was read stays the one that is read, if the DELETE does not mean it.
  pub select-delete_kept :
      (p q : R → Bool) (t : List R) (r : R)
      → select p t ≡ some r
      → q r ≡ false
      → select p (delete_where q t) ≡ some r
  unfolding select delete_where
  select-delete_kept p q [] r e k = cc
  select-delete_kept p q (x ∷ t) r e k = ground (arith, select-delete_kept p q t r)
