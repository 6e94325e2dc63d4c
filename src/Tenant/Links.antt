-- ===== src/Tenant/Links.antt =====
-- The life of an invite link: which tokens resolve, to whom, and until when.
use media_share.Prelude.{
  ℕ, ◌≡◌, ◌≢◌, ◌↔◌, refl, ◌∙◌, inl, inr, true, false, none, some, List, [], ◌∷◌, Text, is_empty,
  same_iff, lookup, lookup-insert, arith, Option-cases,
}
use media_share.Random.{Rng, new_token}
use media_share.Session
use media_share.Session.{valid_iff}
use media_share.Tenant.{
  Tenant, Registry, new_registry, new_tenant, get, controlled, resolve_session, start_session,
  regenerate_session, stop_session,
}
use media_share.Tenant.Index.{IsIndexed, get-IsIndexed, controlled-IsIndexed}

-- The calls that change the registry.
pub data Control : Type 0 where
  open_tenant stop : Text → Control
  start regenerate : Text → Rng → ℕ → Control

unfoldable pub control : Control → Registry → Registry
control (open_tenant id) r = (get id r).1
control (start id rng now) r = (start_session id rng now r).registry
control (regenerate id rng now) r = (regenerate_session id rng now r).registry
control (stop id) r = (stop_session id r).registry

-- A minted token is not in use yet.
abbrev pub IsFresh : Control → Registry → Type 0
IsFresh (start id rng now) r = lookup (new_token rng) r.by_token ≡ none
IsFresh (regenerate id rng now) r = lookup (new_token rng) r.by_token ≡ none
IsFresh _ r = Unit

unfoldable pub run : List Control → Registry → Registry
run [] r = r
run (c ∷ cs) r = run cs (control c r)

abbrev pub AllFresh : List Control → Registry → Type 0
AllFresh [] r = Unit
AllFresh (c ∷ cs) r = IsFresh c r × AllFresh cs (control c r)

pub control-IsIndexed :
    (c : Control) (r : Registry) → IsFresh c r → IsIndexed r → IsIndexed (control c r)
unfolding control
control-IsIndexed (Control.open_tenant id) r f v = get-IsIndexed id r v
control-IsIndexed (Control.start id rng now) r f v =
    unfold start_session Session.start in
    controlled-IsIndexed id (λ tok. tok) (Session.start rng now) r v refl (λ e. cc) (inr f)
control-IsIndexed (Control.regenerate id rng now) r f v =
    unfold regenerate_session Session.regenerate in
    controlled-IsIndexed id (λ tok. tok) (Session.regenerate rng now) r v refl (λ e. cc) (inr f)
control-IsIndexed (Control.stop id) r f v =
    unfold stop_session Session.stop in
    controlled-IsIndexed id (λ _. []) Session.stop r v refl (λ e. refl) (inl refl)

run-IsIndexed_from :
    (cs : List Control) (r : Registry) → AllFresh cs r → IsIndexed r → IsIndexed (run cs r)
unfolding run
run-IsIndexed_from [] r f v = v
run-IsIndexed_from (c ∷ cs) r f v =
    run-IsIndexed_from cs (control c r) f.1 (control-IsIndexed c r f.0 v)

new_registry-IsIndexed : IsIndexed new_registry
unfolding new_registry lookup
new_registry-IsIndexed = record {
  named = λ id t e. cc;
  closed = λ id t e a. cc;
  indexed = λ id t e n. cc;
  owned = λ tok id e. cc;
}

-- After any calls, as long as no minted token was in use when it was minted, the index of the tokens
-- holds exactly the tokens of the tenants' sessions, and a closed session has none.
pub run-IsIndexed : (cs : List Control) → AllFresh cs new_registry → IsIndexed (run cs new_registry)
run-IsIndexed cs f = run-IsIndexed_from cs new_registry f new_registry-IsIndexed

-- What a resolved token went through.
pub resolve_session_inv :
    (r : Registry) (token : Text) (t : Tenant)
    → resolve_session token r ≡ some t
    → (id : Text) × (lookup token r.by_token ≡ some id)
      × (lookup id r.tenants ≡ some t)
      × (Session.valid token t.session ≡ true)
unfolding resolve_session
resolve_session_inv r token t e = elim (Option-cases (lookup token r.by_token)) [
  | inl missing ↦ ground arith
  | inr (id, at) ↦ (id, at, ground arith, ground arith)
]

-- In an indexed registry a token resolves to a tenant exactly if it is the token of that tenant's
-- active session and not empty.
pub resolve_session_iff :
    (r : Registry) (token : Text) (t : Tenant)
    → IsIndexed r
    → (resolve_session token r ≡ some t) ↔ (
        (lookup t.streamer_id r.tenants ≡ some t)
        × (t.session.active ≡ true)
        × (t.session.token ≡ token)
        × (is_empty token ≡ false))
unfolding resolve_session
resolve_session_iff r token t v = (
  λ e.
      let (id, at, found, ok) = resolve_session_inv r token t e in
      ground (arith, v.named id t found, (valid_iff token t.session).0 ok),
  λ (found, a, e, n).
      ground (arith, v.indexed t.streamer_id t found, (valid_iff token t.session).1 (a, e, n)),
)

abbrev pub target : Control → Text
target (Control.open_tenant id) = id
target (Control.start id rng now) = id
target (Control.regenerate id rng now) = id
target (Control.stop id) = id

tenants-get :
    (id j : Text) (r : Registry) → j ≢ id → lookup j (get id r).1.tenants ≡ lookup j r.tenants
unfolding get
tenants-get id j r ne = ground (arith, lookup-insert id j (new_tenant id) r.tenants, same_iff id j)

tenants-controlled :
    {A : Type 0} (id : Text) (token_of : A → Text) (change : Session.Manager → Session.Outcome A)
    (r : Registry) (j : Text)
    → j ≢ id
    → lookup j (controlled id token_of change r).registry.tenants ≡ lookup j r.tenants
unfolding controlled
tenants-controlled id token_of change r j ne =
    let t = (get id r).0 in
    ground (
      arith,
      lookup-insert id j (record t { session = (change t.session).manager }) (get id r).1.tenants,
      same_iff id j,
      tenants-get id j r ne,
    )

pub tenants-control :
    (c : Control) (r : Registry) (j : Text)
    → j ≢ target c
    → lookup j (control c r).tenants ≡ lookup j r.tenants
unfolding control
tenants-control (Control.open_tenant id) r j ne = tenants-get id j r ne
tenants-control (Control.start id rng now) r j ne =
    unfold start_session in tenants-controlled id (λ tok. tok) (Session.start rng now) r j ne
tenants-control (Control.regenerate id rng now) r j ne =
    unfold regenerate_session in
    tenants-controlled id (λ tok. tok) (Session.regenerate rng now) r j ne
tenants-control (Control.stop id) r j ne =
    unfold stop_session in tenants-controlled id (λ _. []) Session.stop r j ne

-- The tenant of another streamer keeps its link, whatever is done to a streamer's session.
pub control_isolated :
    (c : Control) (r : Registry) (token : Text) (t : Tenant)
    → IsIndexed r
    → IsFresh c r
    → t.streamer_id ≢ target c
    → resolve_session token r ≡ some t
    → resolve_session token (control c r) ≡ some t
control_isolated c r token t v f other e =
    let (found, a, tok, n) = (resolve_session_iff r token t v).0 e in
    (resolve_session_iff (control c r) token t (control-IsIndexed c r f v)).1
      (tenants-control c r t.streamer_id other ∙ found, a, tok, n)
