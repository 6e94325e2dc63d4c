-- ===== src/Auth/Middleware/Frames.antt =====
-- The checks of a session leave the accounts alone.
use media_share.Prelude.{ℕ, ◌≡◌, refl, inl, inr, Option, none, some, Text, arith, Option-cases}
use media_share.Store.Db.{World, Result, ok, err, Sql}
use media_share.Store.Sessions.{
  delete_auth_row, delete_viewer_row, get_valid_auth_session, get_valid_viewer_session,
  select_auth_session, select_viewer_session,
}
use media_share.Auth.Middleware.{Request, authenticate, authenticate_viewer, known, with_cookie}

-- Calls of the database that leave the balances, the ledger and the transaction as they were.
abbrev pub Frames : World → World → Type 0
Frames w w' =
    (w'.db.credit_balances ≡ w.db.credit_balances)
    × (w'.db.credit_ledger ≡ w.db.credit_ledger)
    × (w'.saved ≡ w.saved)

auth_session-Frames :
    (now : ℕ) (id : Text) (w : World) → Frames w (get_valid_auth_session now id w).1
unfolding get_valid_auth_session delete_auth_row
auth_session-Frames now id w = elim (Option-cases (select_auth_session id w.db)) [
  | inl missing ↦ (ground arith, ground arith, ground arith)
  | inr (s, at) ↦ (ground arith, ground arith, ground arith)
]

viewer_session-Frames :
    (now : ℕ) (id : Text) (w : World) → Frames w (get_valid_viewer_session now id w).1
unfolding get_valid_viewer_session delete_viewer_row
viewer_session-Frames now id w = elim (Option-cases (select_viewer_session id w.db)) [
  | inl missing ↦ (ground arith, ground arith, ground arith)
  | inr (s, at) ↦ (ground arith, ground arith, ground arith)
]

known-same : {A : Type 0} (r : Result A) (w : World) → (known r w).1 ≡ w
unfolding known
known-same (ok a) w = refl
known-same (err e) w = ground arith

cookie-Frames :
    {A : Type 0} (check : Text → Sql A) (cookie : Option Text)
    → ((id : Text) (w : World) → Frames w (check id w).1)
    → (w : World) → Frames w (with_cookie check cookie w).1
unfolding with_cookie
cookie-Frames check none frames w = (refl, refl, refl)
cookie-Frames check (some id) frames w =
    let (balances, ledger, open_one) = frames id w in
    let same = known-same (check id w).0 (check id w).1 in
    (ground (arith, same), ground (arith, same), ground (arith, same))

pub authenticate-Frames : (now : ℕ) (r : Request) (w : World) → Frames w (authenticate now r w).1
unfolding authenticate
authenticate-Frames now r w =
    cookie-Frames (get_valid_auth_session now) r.sid_cookie (auth_session-Frames now) w

pub authenticate_viewer-Frames :
    (now : ℕ) (r : Request) (w : World) → Frames w (authenticate_viewer now r w).1
unfolding authenticate_viewer
authenticate_viewer-Frames now r w =
    cookie-Frames (get_valid_viewer_session now) r.vsid_cookie (viewer_session-Frames now) w
