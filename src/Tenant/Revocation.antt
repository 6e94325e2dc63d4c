-- ===== src/Tenant/Revocation.antt =====
-- What becomes of the links of a streamer whose session changes.
use media_share.Prelude.{
  ℕ, ◌≡◌, ◌≢◌, refl, ap, ◌∙◌, inl, inr, true, none, some, [], Text, same_iff, same_refl, lookup,
  lookup-insert, if◌then◌else◌, arith, Option-cases,
}
use media_share.Random.{Rng, new_token, is_empty-new_token}
use media_share.Session
use media_share.Tenant.{
  Tenant, Registry, get, controlled, resolve_session, start_session, regenerate_session,
  stop_session,
}
use media_share.Tenant.Index.{IsIndexed, get-IsIndexed, lookup-get}
use media_share.Tenant.Links.{
  Control, control, control-IsIndexed, target, resolve_session_iff, tenants-control,
}

-- The session of the streamer after a call.
abbrev session_after : Control → Registry → Session.Manager
session_after (Control.open_tenant id) r = (get id r).0.session
session_after (Control.start id rng now) r = (Session.start rng now (get id r).0.session).manager
session_after (Control.regenerate id rng now) r =
    (Session.regenerate rng now (get id r).0.session).manager
session_after (Control.stop id) r = (Session.stop (get id r).0.session).manager

target-controlled :
    {A : Type 0} (id : Text) (token_of : A → Text) (change : Session.Manager → Session.Outcome A)
    (r : Registry)
    → lookup id (controlled id token_of change r).registry.tenants
      ≡ some (record (get id r).0 { session = (change (get id r).0.session).manager })
unfolding controlled
target-controlled id token_of change r =
    let t = (get id r).0 in
    ground (
      arith,
      lookup-insert id id (record t { session = (change t.session).manager }) (get id r).1.tenants,
      same_refl id,
    )

target-control :
    (c : Control) (r : Registry)
    → lookup (target c) (control c r).tenants
      ≡ some (record (get (target c) r).0 { session = session_after c r })
unfolding control
target-control (Control.open_tenant id) r = lookup-get id r
target-control (Control.start id rng now) r =
    unfold start_session in target-controlled id (λ tok. tok) (Session.start rng now) r
target-control (Control.regenerate id rng now) r =
    unfold regenerate_session in target-controlled id (λ tok. tok) (Session.regenerate rng now) r
target-control (Control.stop id) r =
    unfold stop_session in target-controlled id (λ _. []) Session.stop r

-- A link of the streamer is dead once the session has another token.
dead_link :
    (c : Control) (r : Registry) (old : Text) (u : Tenant)
    → IsIndexed r
    → IsIndexed (control c r)
    → (session_after c r).token ≢ old
    → resolve_session old r ≡ some u
    → u.streamer_id ≡ target c
    → resolve_session old (control c r) ≡ none
dead_link c r old u v v' ne e mine = elim (Option-cases (resolve_session old (control c r))) [
  | inl dead ↦ dead
  | inr (w, alive) ↦
      let (found, a, tok, n) = (resolve_session_iff r old u v).0 e in
      let (found', a', tok', n') = (resolve_session_iff (control c r) old w v').0 alive in
      ground (
        arith,
        target-control c r,
        same_iff w.streamer_id (target c),
        v.indexed u.streamer_id u found,
        v.indexed w.streamer_id w,
        tenants-control c r w.streamer_id,
      )
]

-- A token of the index belongs to a session, so a token that is in nobody's use differs from it.
token_ne_fresh :
    (r : Registry) (rng : Rng) (old : Text) (u : Tenant)
    → IsIndexed r
    → lookup (new_token rng) r.by_token ≡ none
    → resolve_session old r ≡ some u
    → new_token rng ≢ old
token_ne_fresh r rng old u v f e same_token =
    let (found, a, tok, n) = (resolve_session_iff r old u v).0 e in
    ground (arith, v.indexed u.streamer_id u found)

-- The token of the open session that a call leaves resolves to its tenant.
live_link :
    (c : Control) (r : Registry) (rng : Rng)
    → IsIndexed r
    → IsIndexed (control c r)
    → (session_after c r).active ≡ true
    → (session_after c r).token ≡ new_token rng
    → resolve_session (new_token rng) (control c r)
      ≡ some (record (get (target c) r).0 { session = session_after c r })
live_link c r rng v v' a tok =
    let t : Tenant = record (get (target c) r).0 { session = session_after c r } in
    let named =
      (get-IsIndexed (target c) r v).named (target c) (get (target c) r).0
        (lookup-get (target c) r) in
    (resolve_session_iff (control c r) (new_token rng) t v').1 (
      ap (λ j. lookup j (control c r).tenants) named ∙ target-control c r,
      a,
      tok,
      is_empty-new_token rng,
    )

module _ (r : Registry) (v : IsIndexed r) (id : Text) (rng : Rng) (now : ℕ)
    (fresh : lookup (new_token rng) r.by_token ≡ none) where
  -- After `StartSession`, the minted token not being in use before, the returned token resolves to the
  -- streamer's tenant, with an open session that started now.
  pub start_session-live :
      resolve_session (start_session id rng now r).result (start_session id rng now r).registry
      ≡ some (record (get id r).0 {
        session = record (get id r).0.session {
          active = true;
          token = new_token rng;
          started_at = now;
        };
      })
  unfolding control start_session
  start_session-live =
      let c = Control.start id rng now in
      live_link c r rng v (control-IsIndexed c r fresh v) refl refl

  -- After `StartSession`, the minted token not being in use before, no link of the streamer that
  -- resolved before the call resolves.
  start_session-old :
      (old : Text) (u : Tenant)
      → resolve_session old r ≡ some u
      → u.streamer_id ≡ id
      → resolve_session old (start_session id rng now r).registry ≡ none
  unfolding control start_session
  start_session-old old u e mine =
      let c = Control.start id rng now in
      dead_link c r old u v (control-IsIndexed c r fresh v) (token_ne_fresh r rng old u v fresh e) e
        mine

  -- After `RegenerateSession`, the minted token not being in use before, the returned token resolves to the
  -- streamer's tenant, whose session is open and keeps its start if it was open.
  regenerate_session-live :
      resolve_session
        (regenerate_session id rng now r).result
        (regenerate_session id rng now r).registry
      ≡ some (record (get id r).0 {
        session = record (get id r).0.session {
          active = true;
          token = new_token rng;
          started_at = if (get id r).0.session.active then (get id r).0.session.started_at else now;
        };
      })
  unfolding control regenerate_session
  regenerate_session-live =
      let c = Control.regenerate id rng now in
      live_link c r rng v (control-IsIndexed c r fresh v) refl refl

  -- After `RegenerateSession`, the minted token not being in use before, no link of the streamer that
  -- resolved before the call resolves.
  pub regenerate_session-old :
      (old : Text) (u : Tenant)
      → resolve_session old r ≡ some u
      → u.streamer_id ≡ id
      → resolve_session old (regenerate_session id rng now r).registry ≡ none
  unfolding control regenerate_session
  regenerate_session-old old u e mine =
      let c = Control.regenerate id rng now in
      dead_link c r old u v (control-IsIndexed c r fresh v) (token_ne_fresh r rng old u v fresh e) e
        mine

-- After `StopSession` no link of the streamer resolves: neither one from before nor another.
stop_session-links :
    (r : Registry) (id token : Text) (u : Tenant)
    → IsIndexed r
    → resolve_session token (stop_session id r).registry ≡ some u
    → u.streamer_id ≢ id
unfolding control stop_session
stop_session-links r id token u v e mine =
    let c = Control.stop id in
    let (found, a, tok, n) =
      (resolve_session_iff (control c r) token u (control-IsIndexed c r tt v)).0 e in
    ground (arith, target-control c r, same_iff u.streamer_id id)
