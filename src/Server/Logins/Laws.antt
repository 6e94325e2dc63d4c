-- ===== src/Server/Logins/Laws.antt =====
-- What the callback of a login can do.
use media_share.Prelude.{
  ◌≡◌, ◌≢◌, refl, ◌⊎◌, inl, inr, false, ◌||◌, Option, none, some, Text, is_empty, not_empty,
  Bool-cases,
}
use media_share.Store.Db.{Db, World}
use media_share.Auth.{Kind, StateInfo, TwitchUser, Fresh, consume_state, login, login_viewer}
use media_share.Auth.States.{UniqueKeys, consume_state_once}
use media_share.Auth.Parts.{login-Keeps, login_viewer-Keeps}
use media_share.Server.{Site}
use media_share.Server.Logins.{
  Inputs, Query, handle_auth_callback, called_back, by_kind, viewer_callback, owner_callback,
}

-- Nothing but the viewers and their sessions differs.
pub record ViewersOnly (d d' : Db) : Type 0 where
  pub streamers : d'.streamers ≡ d.streamers
  pub auth_sessions : d'.auth_sessions ≡ d.auth_sessions
  pub moderator_links : d'.moderator_links ≡ d.moderator_links
  pub credit_balances : d'.credit_balances ≡ d.credit_balances
  pub bits_events : d'.bits_events ≡ d.bits_events
  pub credit_ledger : d'.credit_ledger ≡ d.credit_ledger

-- Nothing but the streamers and their sessions differs.
pub record StreamersOnly (d d' : Db) : Type 0 where
  pub viewers : d'.viewers ≡ d.viewers
  pub viewer_sessions : d'.viewer_sessions ≡ d.viewer_sessions
  pub moderator_links : d'.moderator_links ≡ d.moderator_links
  pub credit_balances : d'.credit_balances ≡ d.credit_balances
  pub bits_events : d'.bits_events ≡ d.bits_events
  pub credit_ledger : d'.credit_ledger ≡ d.credit_ledger

login_viewer-ViewersOnly :
    (f : Fresh) (u : Option TwitchUser) (w : World) → ViewersOnly w.db (login_viewer f u w).1.db
login_viewer-ViewersOnly f u w = record {
  streamers = (login_viewer-Keeps (λ d. d.streamers) (λ d x. refl) (λ d x. refl) f u w).0;
  auth_sessions = (login_viewer-Keeps (λ d. d.auth_sessions) (λ d x. refl) (λ d x. refl) f u w).0;
  moderator_links =
      (login_viewer-Keeps (λ d. d.moderator_links) (λ d x. refl) (λ d x. refl) f u w).0;
  credit_balances =
      (login_viewer-Keeps (λ d. d.credit_balances) (λ d x. refl) (λ d x. refl) f u w).0;
  bits_events = (login_viewer-Keeps (λ d. d.bits_events) (λ d x. refl) (λ d x. refl) f u w).0;
  credit_ledger = (login_viewer-Keeps (λ d. d.credit_ledger) (λ d x. refl) (λ d x. refl) f u w).0;
}

login-StreamersOnly :
    (f : Fresh) (u : Option TwitchUser) (w : World) → StreamersOnly w.db (login f u w).1.db
login-StreamersOnly f u w = record {
  viewers = (login-Keeps (λ d. d.viewers) (λ d x. refl) (λ d x. refl) f u w).0;
  viewer_sessions = (login-Keeps (λ d. d.viewer_sessions) (λ d x. refl) (λ d x. refl) f u w).0;
  moderator_links = (login-Keeps (λ d. d.moderator_links) (λ d x. refl) (λ d x. refl) f u w).0;
  credit_balances = (login-Keeps (λ d. d.credit_balances) (λ d x. refl) (λ d x. refl) f u w).0;
  bits_events = (login-Keeps (λ d. d.bits_events) (λ d x. refl) (λ d x. refl) f u w).0;
  credit_ledger = (login-Keeps (λ d. d.credit_ledger) (λ d x. refl) (λ d x. refl) f u w).0;
}

-- What a callback with the state's kind did to the tables.
abbrev pub LoggedIn : Kind → Db → Db → Type 0
LoggedIn Kind.viewer_login d d' = ViewersOnly d d'
LoggedIn _ d d' = StreamersOnly d d'

by_kind-LoggedIn :
    (i : Inputs) (code : Text) (k : Kind) (return_to : Text) (w : World)
    → LoggedIn k w.db (by_kind i code k return_to w).1.db
unfolding by_kind viewer_callback owner_callback
by_kind-LoggedIn i code Kind.unset return_to w = login-StreamersOnly i.fresh (i.exchange code) w
by_kind-LoggedIn i code Kind.owner_login return_to w =
    login-StreamersOnly i.fresh (i.exchange code) w
by_kind-LoggedIn i code Kind.viewer_login return_to w =
    login_viewer-ViewersOnly i.fresh (i.exchange code) w

called_back-cases :
    (i : Inputs) (code : Text) (info : Option StateInfo) (w : World)
    → ((called_back i code info w).1 ≡ w)
      ⊎ ((one : StateInfo) × (info ≡ some one)
          × LoggedIn one.kind w.db (called_back i code info w).1.db)
unfolding called_back
called_back-cases i code none w = inl refl
called_back-cases i code (some one) w =
    inr (one, refl, by_kind-LoggedIn i code one.kind one.return_to w)

-- A callback changes nothing in the database, unless it consumes a state that is there and has not ended;
-- then a state for a viewer's login changes viewers and their sessions only, and any other streamers and
-- theirs only.
pub handle_auth_callback-LoggedIn :
    (i : Inputs) (q : Query) (s : Site)
    → ((handle_auth_callback i q s).1.world ≡ s.world)
      ⊎ ((info : StateInfo) × ((consume_state i.fresh.now q.state s.states).0 ≡ some info)
          × LoggedIn info.kind s.world.db (handle_auth_callback i q s).1.world.db)
unfolding handle_auth_callback
handle_auth_callback-LoggedIn i q s = elim (Bool-cases (not_empty q.error)) [
  | inl denied ↦ inl (rw denied refl)
  | inr on ↦ elim (Bool-cases (is_empty q.code || is_empty q.state)) [
    | inl missing ↦ inl (rw (on, missing) refl)
    | inr there ↦
        rw (on, there)
          (called_back-cases i q.code (consume_state i.fresh.now q.state s.states).0 s.world)
  ]
]

-- Behind a callback that consumed a state there is none for it.
spent :
    (i later : Inputs) (q again : Query) (s : Site)
    → UniqueKeys s.states
    → not_empty q.error ≡ false
    → (is_empty q.code || is_empty q.state) ≡ false
    → again.state ≡ q.state
    → (info : StateInfo)
    → (consume_state later.fresh.now again.state (handle_auth_callback i q s).1.states).0
      ≢ some info
unfolding handle_auth_callback
spent i later q again s unique fine there same info =
    rw (fine, there, same)
      (λ found. cc (consume_state_once i.fresh.now later.fresh.now q.state s.states unique))

-- A state that a callback consumed logs nobody in again: a later callback with the same state changes
-- nothing in the database, whatever else it carries. The first had no error, and a code and a state.
pub handle_auth_callback_once :
    (i later : Inputs) (q again : Query) (s : Site)
    → UniqueKeys s.states
    → not_empty q.error ≡ false
    → (is_empty q.code || is_empty q.state) ≡ false
    → again.state ≡ q.state
    → (handle_auth_callback later again (handle_auth_callback i q s).1).1.world
      ≡ (handle_auth_callback i q s).1.world
handle_auth_callback_once i later q again s unique fine there same =
    elim (handle_auth_callback-LoggedIn later again (handle_auth_callback i q s).1) [
      | inl unchanged ↦ unchanged
      | inr (info, found, did) ↦ absurd (spent i later q again s unique fine there same info found)
    ]
