-- ===== src/Server/Logins/Sound.antt =====
-- The soundness of the site behind the routes of the logins.
use media_share.Prelude.{
  refl, inl, inr, Bool, not, ◌||◌, Option, none, some, Text, is_empty, not_empty, Bool-cases,
}
use media_share.Store.Db.{Sql}
use media_share.Store.Db.Parts.{Keeps}
use media_share.Auth.{
  Kind, StateInfo, consume_state, login, login_viewer, dev_login, dev_login_viewer,
}
use media_share.Auth.Parts.{
  dev_login-Keeps, dev_login_viewer-Keeps, login-Keeps, login_viewer-Keeps, logout-Keeps,
  logout_viewer-Keeps,
}
use media_share.Auth.Middleware.{Request, logout, logout_viewer}
use media_share.Config
use media_share.Server.{Site}
use media_share.Server.Sound.{IsSound, framed-IsSound}
use media_share.Server.Logins.{
  Inputs, Query, handle_auth_callback, called_back, by_kind, viewer_callback, owner_callback,
  handle_auth_start, handle_viewer_auth_start, authorized, handle_logout, handle_viewer_logout,
  handle_dev_login, handle_viewer_dev_login,
}

-- A login that keeps the accounts keeps the site sound.
accounts-IsSound :
    {A : Type 0} (m : Sql A) (s : Site)
    → Keeps (λ d. d.credit_balances) m
    → Keeps (λ d. d.credit_ledger) m
    → IsSound s
    → IsSound (record s { world = (m s.world).1 })
accounts-IsSound m s balances ledger h =
    let b = balances s.world in
    let l = ledger s.world in framed-IsSound s (m s.world).1 (b.0, l.0, b.1) h

states-IsSound :
    (s : Site) → IsSound s → (i : Inputs) (k : Kind) (t : Text) → IsSound (authorized i k t s).1
unfolding authorized
states-IsSound s h i k t = record { settled = h.settled; indexed = h.indexed; queues = h.queues }

pub auth_start-IsSound : (i : Inputs) (s : Site) → IsSound s → IsSound (handle_auth_start i s).1
unfolding handle_auth_start
auth_start-IsSound i s h = elim (Bool-cases (Config.oauth_enabled i.config)) [
  | inl on ↦ rw on (states-IsSound s h i Kind.owner_login _)
  | inr off ↦ rw off h
]

pub viewer_auth_start-IsSound :
    (i : Inputs) (t : Text) (s : Site) → IsSound s → IsSound (handle_viewer_auth_start i t s).1
unfolding handle_viewer_auth_start
viewer_auth_start-IsSound i t s h = elim (Bool-cases (Config.oauth_enabled i.config)) [
  | inl on ↦ rw on (states-IsSound s h i Kind.viewer_login _)
  | inr off ↦ rw off h
]

pub logout-IsSound :
    (secure : Bool) (r : Request) (s : Site) → IsSound s → IsSound (handle_logout secure r s).1
unfolding handle_logout
logout-IsSound secure r s h =
    accounts-IsSound (logout secure r) s
      (logout-Keeps (λ d. d.credit_balances) (λ d x. refl) secure r)
      (logout-Keeps (λ d. d.credit_ledger) (λ d x. refl) secure r) h

pub viewer_logout-IsSound :
    (secure : Bool) (r : Request) (t : Text) (s : Site)
    → IsSound s
    → IsSound (handle_viewer_logout secure r t s).1
unfolding handle_viewer_logout
viewer_logout-IsSound secure r t s h =
    accounts-IsSound (logout_viewer secure r) s
      (logout_viewer-Keeps (λ d. d.credit_balances) (λ d x. refl) secure r)
      (logout_viewer-Keeps (λ d. d.credit_ledger) (λ d x. refl) secure r) h

pub dev_login-IsSound : (i : Inputs) (s : Site) → IsSound s → IsSound (handle_dev_login i s).1
unfolding handle_dev_login
dev_login-IsSound i s h = elim (Bool-cases (not i.config.dev_login)) [
  | inl off ↦ rw off h
  | inr on ↦ rw on (
      accounts-IsSound (dev_login i.fresh) s
        (dev_login-Keeps (λ d. d.credit_balances) (λ d x. refl) (λ d x. refl) i.fresh)
        (dev_login-Keeps (λ d. d.credit_ledger) (λ d x. refl) (λ d x. refl) i.fresh) h)
]

pub viewer_dev_login-IsSound :
    (i : Inputs) (t : Text) (s : Site) → IsSound s → IsSound (handle_viewer_dev_login i t s).1
unfolding handle_viewer_dev_login
viewer_dev_login-IsSound i t s h = elim (Bool-cases (not i.config.dev_login)) [
  | inl off ↦ rw off h
  | inr on ↦ rw on (
      accounts-IsSound (dev_login_viewer i.fresh) s
        (dev_login_viewer-Keeps (λ d. d.credit_balances) (λ d x. refl) (λ d x. refl) i.fresh)
        (dev_login_viewer-Keeps (λ d. d.credit_ledger) (λ d x. refl) (λ d x. refl) i.fresh) h)
]

by_kind-IsSound :
    (i : Inputs) (code : Text) (k : Kind) (t : Text) (s : Site)
    → IsSound s
    → IsSound (record s { world = (by_kind i code k t s.world).1 })
unfolding by_kind viewer_callback owner_callback
by_kind-IsSound i code Kind.viewer_login t s h =
    accounts-IsSound (login_viewer i.fresh (i.exchange code)) s
      (login_viewer-Keeps (λ d. d.credit_balances) (λ d x. refl) (λ d x. refl) i.fresh _)
      (login_viewer-Keeps (λ d. d.credit_ledger) (λ d x. refl) (λ d x. refl) i.fresh _) h
by_kind-IsSound i code Kind.owner_login t s h =
    accounts-IsSound (login i.fresh (i.exchange code)) s
      (login-Keeps (λ d. d.credit_balances) (λ d x. refl) (λ d x. refl) i.fresh _)
      (login-Keeps (λ d. d.credit_ledger) (λ d x. refl) (λ d x. refl) i.fresh _) h
by_kind-IsSound i code Kind.unset t s h =
    accounts-IsSound (login i.fresh (i.exchange code)) s
      (login-Keeps (λ d. d.credit_balances) (λ d x. refl) (λ d x. refl) i.fresh _)
      (login-Keeps (λ d. d.credit_ledger) (λ d x. refl) (λ d x. refl) i.fresh _) h

called_back-IsSound :
    (i : Inputs) (code : Text) (info : Option StateInfo) (s : Site)
    → IsSound s
    → IsSound (record s { world = (called_back i code info s.world).1 })
unfolding called_back
called_back-IsSound i code none s h = h
called_back-IsSound i code (some info) s h = by_kind-IsSound i code info.kind info.return_to s h

pub auth_callback-IsSound :
    (i : Inputs) (q : Query) (s : Site) → IsSound s → IsSound (handle_auth_callback i q s).1
unfolding handle_auth_callback
auth_callback-IsSound i q s h = elim (Bool-cases (not_empty q.error)) [
  | inl denied ↦ rw denied h
  | inr on ↦ elim (Bool-cases (is_empty q.code || is_empty q.state)) [
    | inl missing ↦ rw (on, missing) h
    | inr there ↦
        let state = consume_state i.fresh.now q.state s.states in
        let k = called_back-IsSound i q.code state.0 s h in
        rw (on, there) (record { settled = k.settled; indexed = k.indexed; queues = k.queues })
  ]
]
