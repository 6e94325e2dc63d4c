-- ===== src/Tenant/Races/Changes.antt =====
-- A goroutine changes the session of its tenant.
use media_share.Prelude.{
  ℕ, ◌≡◌, ◌≢◌, refl, sym, subst, ◌∙◌, ◌⊎◌, inl, inr, false, none, some, Text, is_empty, lookup,
  arith, Bool-cases, lookup-insert, same, same_iff, ◌==◌,
}
use media_share.Random.{Rng, new_token}
use media_share.Session
use media_share.Session.{valid_iff}
use media_share.Tenant.{Tenant, set_session}
use media_share.Tenant.Races.{Change, Race, Thread, changed, token_of, set_thread, with_session}
use media_share.Tenant.Races.Coherent.{IsCoherent}

changed-token :
    (c : Change) (rng : Rng) (now : ℕ) (m : Session.Manager)
    → (changed c rng now m).token ≡ token_of c rng
unfolding changed token_of Session.start Session.regenerate Session.stop
changed-token Change.start rng now m = refl
changed-token Change.regenerate rng now m = refl
changed-token Change.stop rng now m = refl

token_of-minted :
    (c : Change) (rng : Rng) → is_empty (token_of c rng) ≡ false → token_of c rng ≡ new_token rng
unfolding token_of
token_of-minted Change.start rng there = refl
token_of-minted Change.regenerate rng there = refl
token_of-minted Change.stop rng there = cc

-- A goroutine changes the session of its tenant, and is then to bring the index up to date.
module _ (s : Race) (v : IsCoherent s) (n : ℕ) (id : Text) (c : Change) (old : Text) (rng : Rng)
    (now : ℕ) (t : Tenant) (at : s.threads n ≡ Thread.holding id c old)
    (here : lookup id s.registry.tenants ≡ some t)
    (fresh : lookup (new_token rng) s.minted ≡ none) where
  abbrev behind : Race
  behind = set_thread n (Thread.indexing id old (token_of c rng)) (with_session id c rng now t s)

  tenants-behind :
      (j : Text) (u : Tenant)
      → lookup j behind.registry.tenants ≡ some u
      → ((j ≡ id) × (u.session.token ≡ token_of c rng) × (u.streamer_id ≡ id))
        ⊎ ((j ≢ id) × (lookup j s.registry.tenants ≡ some u))
  unfolding with_session set_session
  tenants-behind j u e =
      let put =
        lookup-insert id j (record t { session = changed c rng now t.session })
          s.registry.tenants in
      elim (Bool-cases (same id j)) [
        | inl own ↦ inl (
          ground (arith, same_iff id j),
          ground (arith, put, changed-token c rng now t.session),
          ground (arith, put, v.named id t here),
        )
        | inr other ↦ inr (λ same. ground (arith, same_iff id j), ground (arith, put))
      ]

  -- What was minted before stays, and differs from the new token.
  still :
      (token j : Text)
      → lookup token s.minted ≡ some j
      → (lookup token behind.minted ≡ some j) × (new_token rng ≢ token)
  unfolding with_session
  still token j e = (
    ground (arith, lookup-insert (new_token rng) token id s.minted, same_iff (new_token rng) token),
    λ same. cc,
  )

  noted : is_empty (token_of c rng) ≡ false → lookup (token_of c rng) behind.minted ≡ some id
  unfolding with_session
  noted there = ground (
    arith,
    token_of-minted c rng there,
    lookup-insert (new_token rng) (new_token rng) id s.minted,
    same_iff (new_token rng) (new_token rng),
  )

  indexing-behind :
      (m : ℕ) (j was new : Text)
      → behind.threads m ≡ Thread.indexing j was new
      → ((j ≡ id) × (was ≡ old) × (new ≡ token_of c rng))
        ⊎ (s.threads m ≡ Thread.indexing j was new)
  unfolding with_session
  indexing-behind m j was new e = elim (Bool-cases (m == n)) [
    | inl own ↦ inl (ground arith, ground arith, ground arith)
    | inr other ↦ inr (ground arith)
  ]

  indexing-still :
      (m : ℕ) (j was new : Text)
      → s.threads m ≡ Thread.indexing j was new
      → behind.threads m ≡ Thread.indexing j was new
  unfolding with_session
  indexing-still m j was new e = elim (Bool-cases (m == n)) [
    | inl own ↦
        let same : m ≡ n = ground arith in
        absurd (cc (subst (λ k. s.threads k ≡ Thread.indexing j was new) same e, at))
    | inr other ↦ ground arith
  ]

  -- A minted token is not the one that the session has now.
  unlike :
      (token j : Text)
      → lookup token s.minted ≡ some j
      → is_empty token ≡ false
      → token_of c rng ≢ token
  unlike token j e there same = (still token j e).1 (ground (arith, token_of-minted c rng))

  replaced-behind :
      (m : ℕ) (j was new : Text) (u : Tenant)
      → behind.threads m ≡ Thread.indexing j was new
      → is_empty was ≡ false
      → lookup j behind.registry.tenants ≡ some u
      → u.session.token ≢ was
  replaced-behind m j was new u e there at_j same = elim (tenants-behind j u at_j) [
    | inl (own, token, name) ↦ elim (indexing-behind m j was new e) [
      | inl (mine, held, fresh_one) ↦
          unlike was id (ground (arith, v.held_minted n id c old at)) there (sym token ∙ same)
      | inr before ↦ unlike was j (v.old_minted m j was new before there) there (sym token ∙ same)
    ]
    | inr (other, before_j) ↦ elim (indexing-behind m j was new e) [
      | inl (mine, held, fresh_one) ↦ other mine
      | inr before ↦ v.replaced m j was new u before there before_j same
    ]
  ]

  linked-behind :
      (j : Text) (u : Tenant)
      → lookup j behind.registry.tenants ≡ some u
      → is_empty u.session.token ≡ false
      → (lookup u.session.token behind.registry.by_token ≡ some j)
        ⊎ ((m : ℕ) × (was : Text) × (behind.threads m ≡ Thread.indexing j was u.session.token))
  unfolding with_session set_session
  linked-behind j u e there = elim (tenants-behind j u e) [
    | inl (own, token, name) ↦ inr (n, old, ground arith)
    | inr (other, before) ↦ elim (v.linked j u before there) [
      | inl found ↦ inl found
      | inr (m, was, coming) ↦ inr (m, was, indexing-still m j was u.session.token coming)
    ]
  ]

  pub change-IsCoherent : IsCoherent behind
  unfolding with_session set_session
  change-IsCoherent = record {
    named = λ j u e. elim (tenants-behind j u e) [
      | inl (own, token, name) ↦ name ∙ sym own
      | inr (other, before) ↦ v.named j u before
    ];
    session_minted = λ j u e there. elim (tenants-behind j u e) [
      | inl (own, token, name) ↦ ground (arith, noted)
      | inr (other, before) ↦ (still u.session.token j (v.session_minted j u before there)).0
    ];
    index_minted = λ token j e. (still token j (v.index_minted token j e)).0;
    held_minted = λ m j d was e there. elim (Bool-cases (m == n)) [
      | inl mine ↦ absurd (ground arith)
      | inr other ↦ (still was j (v.held_minted m j d was (ground arith) there)).0
    ];
    old_minted = λ m j was new e there. elim (indexing-behind m j was new e) [
      | inl (mine, held, fresh_one) ↦
          ground (arith, still old id (v.held_minted n id c old at (ground arith)))
      | inr before ↦ (still was j (v.old_minted m j was new before there)).0
    ];
    new_minted = λ m j was new e there. elim (indexing-behind m j was new e) [
      | inl (mine, held, fresh_one) ↦ ground (arith, noted)
      | inr before ↦ (still new j (v.new_minted m j was new before there)).0
    ];
    replaced = replaced-behind;
    linked = linked-behind;
  }
