-- ===== src/Tenant/Index.antt =====
-- The index of the invite tokens and the sessions.
use media_share.Prelude.{
  ◌≡◌, refl, ◌⊎◌, inl, inr, false, none, some, [], Text, same, is_empty, not_empty, ◌&&◌, same_iff,
  same_refl, lookup, delete, lookup-insert, lookup-delete, if◌then◌else◌, arith, Bool-cases,
  Option-cases,
}
use media_share.Session
use media_share.Tenant.{
  Tenant, Registry, new_tenant, get, get_found, reindex, set_session, controlled,
}

-- Each tenant stands under its id, a closed session has no token, and the index holds exactly the
-- tokens of the sessions.
pub record IsIndexed (r : Registry) : Type 0 where
  pub named : (id : Text) (t : Tenant) → lookup id r.tenants ≡ some t → t.streamer_id ≡ id
  pub closed :
      (id : Text) (t : Tenant)
      → lookup id r.tenants ≡ some t
      → t.session.active ≡ false
      → t.session.token ≡ []
  pub indexed :
      (id : Text) (t : Tenant)
      → lookup id r.tenants ≡ some t
      → is_empty t.session.token ≡ false
      → lookup t.session.token r.by_token ≡ some id
  pub owned :
      (token id : Text)
      → lookup token r.by_token ≡ some id
      → (t : Tenant) × (lookup id r.tenants ≡ some t)
        × (t.session.token ≡ token)
        × (is_empty token ≡ false)

-- The index after `reindex`.
pub lookup-reindex :
    (id old fresh token : Text) (r : Registry)
    → lookup token (reindex id old fresh r).by_token ≡ (
        if not_empty fresh && same fresh token
        then some id
        else if not_empty old && same old token
        then none
        else lookup token r.by_token)
unfolding reindex
lookup-reindex id old fresh token r = ground (
  arith,
  lookup-insert fresh token id r.by_token,
  lookup-insert fresh token id (delete old r.by_token),
  lookup-delete old token r.by_token,
)

-- A registry in which one session is replaced, and the index with it.
module _ (r : Registry) (v : IsIndexed r) (id : Text) (t : Tenant)
    (here : lookup id r.tenants ≡ some t) (s : Session.Manager) where
  abbrev replaced : Registry
  replaced = reindex id t.session.token s.token (set_session id t s r)

  module _ (idle : s.active ≡ false → s.token ≡ [])
      (fresh : (s.token ≡ []) ⊎ (lookup s.token r.by_token ≡ none)) where
    replaced-tenants :
        (j : Text)
        → lookup j replaced.tenants
          ≡ (if same id j then some (record t { session = s }) else lookup j r.tenants)
    unfolding reindex set_session
    replaced-tenants j = lookup-insert id j (record t { session = s }) r.tenants

    replaced-index :
        (k : Text)
        → lookup k replaced.by_token ≡ (
            if not_empty s.token && same s.token k
            then some id
            else if not_empty t.session.token && same t.session.token k
            then none
            else lookup k r.by_token)
    unfolding set_session
    replaced-index k = lookup-reindex id t.session.token s.token k (set_session id t s r)

    replaced-named :
        (j : Text) (u : Tenant) → lookup j replaced.tenants ≡ some u → u.streamer_id ≡ j
    replaced-named j u e =
        ground (arith, replaced-tenants j, same_iff id j, v.named id t here, v.named j u)

    replaced-closed :
        (j : Text) (u : Tenant)
        → lookup j replaced.tenants ≡ some u
        → u.session.active ≡ false
        → u.session.token ≡ []
    replaced-closed j u e a = ground (arith, replaced-tenants j, idle, v.closed j u)

    replaced-indexed :
        (j : Text) (u : Tenant)
        → lookup j replaced.tenants ≡ some u
        → is_empty u.session.token ≡ false
        → lookup u.session.token replaced.by_token ≡ some j
    replaced-indexed j u e n = ground (
      arith,
      replaced-tenants j,
      replaced-index u.session.token,
      same_iff id j,
      same_iff s.token u.session.token,
      same_iff t.session.token u.session.token,
      v.indexed j u,
      v.indexed id t here,
    )

    -- An entry of another streamer was there before.
    other_index :
        (k j : Text)
        → lookup k replaced.by_token ≡ some j
        → same id j ≡ false
        → lookup k r.by_token ≡ some j
    other_index k j e other = ground (arith, replaced-index k, same_iff id j)

    -- The tenant's old token is gone from the index.
    stale :
        (k j : Text)
        → lookup k replaced.by_token ≡ some j
        → id ≡ j
        → (not_empty s.token && same s.token k) ≡ false
        → ⊥
    stale k j e own old = elim (Bool-cases (not_empty t.session.token && same t.session.token k)) [
      | inl gone ↦ ground (arith, replaced-index k)
      | inr left ↦
          let before : lookup k r.by_token ≡ some j = ground (arith, replaced-index k) in
          let (u, at, tok, n) = v.owned k j before in ground (arith, same_iff t.session.token k)
    ]

    own_token :
        (k j : Text)
        → lookup k replaced.by_token ≡ some j
        → id ≡ j
        → (s.token ≡ k) × (is_empty k ≡ false)
    own_token k j e own = elim (Bool-cases (not_empty s.token && same s.token k)) [
      | inl new ↦ ground (arith, same_iff s.token k)
      | inr old ↦ absurd (stale k j e own old)
    ]

    replaced-owned :
        (k j : Text)
        → lookup k replaced.by_token ≡ some j
        → (u : Tenant) × (lookup j replaced.tenants ≡ some u)
          × (u.session.token ≡ k)
          × (is_empty k ≡ false)
    replaced-owned k j e = elim (Bool-cases (same id j)) [
      | inl own ↦ (
        record t { session = s },
        ground (arith, replaced-tenants j),
        (own_token k j e ((same_iff id j).0 own)).0,
        (own_token k j e ((same_iff id j).0 own)).1,
      )
      | inr other ↦
          let (u, at, tok, n) = v.owned k j (other_index k j e other) in
          (u, ground (arith, replaced-tenants j), tok, n)
    ]

    replaced-IsIndexed : IsIndexed replaced
    replaced-IsIndexed = record {
      named = replaced-named;
      closed = replaced-closed;
      indexed = replaced-indexed;
      owned = replaced-owned;
    }

-- `Get` hands out the tenant that stands under the id.
pub lookup-get : (id : Text) (r : Registry) → lookup id (get id r).1.tenants ≡ some (get id r).0
unfolding get
lookup-get id r = elim (Option-cases (lookup id r.tenants)) [
  | inl e ↦ rw (e, get_found) (rw lookup-insert (rw same_refl))
  | inr (t, e) ↦ rw (e, get_found) e
]

pub by_token-get : (id : Text) (r : Registry) → (get id r).1.by_token ≡ r.by_token
unfolding get
by_token-get id r = ground arith

-- A new tenant has a closed session.
pub get-IsIndexed : (id : Text) (r : Registry) → IsIndexed r → IsIndexed (get id r).1
unfolding get new_tenant
get-IsIndexed id r v = elim (Option-cases (lookup id r.tenants)) [
  | inl e ↦
      rw (e, get_found)
        (record {
          named = λ j u p.
              ground
                (arith, lookup-insert id j (new_tenant id) r.tenants, same_iff id j, v.named j u);
          closed =
              λ j u p a. ground (arith, lookup-insert id j (new_tenant id) r.tenants, v.closed j u);
          indexed = λ j u p n.
              ground (arith, lookup-insert id j (new_tenant id) r.tenants, v.indexed j u);
          owned = λ k j p.
              let (u, at, tok, n) = v.owned k j p in
              (
                u,
                ground (arith, lookup-insert id j (new_tenant id) r.tenants, same_iff id j),
                tok,
                n,
              );
        })
  | inr (t, e) ↦ rw (e, get_found) v
]

module _ {A : Type 0} (id : Text) (token_of : A → Text)
    (change : Session.Manager → Session.Outcome A) (r : Registry) (v : IsIndexed r) where
  -- The session that the call leaves.
  abbrev pub changed : Session.Outcome A
  changed = change (get id r).0.session

  module _ (reported : token_of changed.result ≡ changed.manager.token) where
    pub controlled-replaced :
        (controlled id token_of change r).registry
        ≡ reindex id
            (get id r).0.session.token
            changed.manager.token
            (set_session id (get id r).0 changed.manager (get id r).1)
    unfolding controlled
    controlled-replaced =
        rw ((get-IsIndexed id r v).named id (get id r).0 (lookup-get id r), reported) refl

    pub controlled-IsIndexed :
        (changed.manager.active ≡ false → changed.manager.token ≡ [])
        → (changed.manager.token ≡ []) ⊎ (lookup changed.manager.token r.by_token ≡ none)
        → IsIndexed (controlled id token_of change r).registry
    controlled-IsIndexed idle fresh = rw controlled-replaced (
        replaced-IsIndexed (get id r).1 (get-IsIndexed id r v) id (get id r).0 (lookup-get id r)
          changed.manager idle (rw by_token-get fresh))
