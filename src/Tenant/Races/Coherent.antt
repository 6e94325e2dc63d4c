-- ===== src/Tenant/Races/Coherent.antt =====
-- What holds of the tokens at every step of a race.
use media_share.Prelude.{
  ℕ, ◌≡◌, ◌≢◌, sym, ap, subst, ◌∙◌, ◌⊎◌, inl, inr, false, some, Text, is_empty, lookup, arith,
  Option-cases, Bool-cases, lookup-insert, same, same_iff, ◌==◌,
}
use media_share.Tenant.{Tenant, get, new_tenant}
use media_share.Tenant.Index.{by_token-get}
use media_share.Tenant.Races.{Change, Race, Thread, opened, with_thread, set_thread}

-- Each tenant stands under its id. The tokens of the sessions, of the index
-- and of the goroutines were minted for the streamer that they are kept for. The token that a goroutine is
-- going to delete is not the session's any more, and a session's token is in the index, or a goroutine is
-- going to bring it there.
pub record IsCoherent (s : Race) : Type 0 where
  pub named : (id : Text) (t : Tenant) → lookup id s.registry.tenants ≡ some t → t.streamer_id ≡ id
  pub session_minted :
      (id : Text) (t : Tenant)
      → lookup id s.registry.tenants ≡ some t
      → is_empty t.session.token ≡ false
      → lookup t.session.token s.minted ≡ some id
  pub index_minted :
      (token id : Text)
      → lookup token s.registry.by_token ≡ some id
      → lookup token s.minted ≡ some id
  pub held_minted :
      (n : ℕ) (id : Text) (c : Change) (old : Text)
      → s.threads n ≡ Thread.holding id c old
      → is_empty old ≡ false
      → lookup old s.minted ≡ some id
  pub old_minted :
      (n : ℕ) (id old new : Text)
      → s.threads n ≡ Thread.indexing id old new
      → is_empty old ≡ false
      → lookup old s.minted ≡ some id
  pub new_minted :
      (n : ℕ) (id old new : Text)
      → s.threads n ≡ Thread.indexing id old new
      → is_empty new ≡ false
      → lookup new s.minted ≡ some id
  pub replaced :
      (n : ℕ) (id old new : Text) (t : Tenant)
      → s.threads n ≡ Thread.indexing id old new
      → is_empty old ≡ false
      → lookup id s.registry.tenants ≡ some t
      → t.session.token ≢ old
  pub linked :
      (id : Text) (t : Tenant)
      → lookup id s.registry.tenants ≡ some t
      → is_empty t.session.token ≡ false
      → (lookup t.session.token s.registry.by_token ≡ some id)
        ⊎ ((n : ℕ) × (old : Text) × (s.threads n ≡ Thread.indexing id old t.session.token))

module _ (s : Race) (v : IsCoherent s) where
  -- A goroutine moves on, and neither had nor gets an entry of the index to write.
  module _ (n : ℕ) (th : Thread)
      (had : (id old new : Text) → s.threads n ≢ Thread.indexing id old new)
      (gets : (id old new : Text) → th ≢ Thread.indexing id old new)
      (holds : (id : Text) (c : Change) (old : Text)
        → th ≡ Thread.holding id c old
        → is_empty old ≡ false
        → lookup old s.minted ≡ some id) where
    indexing_before :
        (m : ℕ) (id old new : Text)
        → with_thread n th s.threads m ≡ Thread.indexing id old new
        → s.threads m ≡ Thread.indexing id old new
    indexing_before m id old new e = elim (Bool-cases (m == n)) [
      | inl here ↦ absurd (gets id old new (ground arith))
      | inr other ↦ ground arith
    ]

    indexing_behind :
        (m : ℕ) (id old new : Text)
        → s.threads m ≡ Thread.indexing id old new
        → with_thread n th s.threads m ≡ Thread.indexing id old new
    indexing_behind m id old new e = elim (Bool-cases (m == n)) [
      | inl here ↦
          let same : m ≡ n = ground arith in
          absurd (had id old new (subst (λ k. s.threads k ≡ Thread.indexing id old new) same e))
      | inr other ↦ ground arith
    ]

    pub set_thread-IsCoherent : IsCoherent (set_thread n th s)
    set_thread-IsCoherent = record {
      named = v.named;
      session_minted = v.session_minted;
      index_minted = v.index_minted;
      held_minted = λ m id c old e there. elim (Bool-cases (m == n)) [
        | inl here ↦ holds id c old (ground arith) there
        | inr other ↦ v.held_minted m id c old (ground arith) there
      ];
      old_minted = λ m id old new e. v.old_minted m id old new (indexing_before m id old new e);
      new_minted = λ m id old new e. v.new_minted m id old new (indexing_before m id old new e);
      replaced = λ m id old new t e. v.replaced m id old new t (indexing_before m id old new e);
      linked = λ id t at there. elim (v.linked id t at there) [
        | inl found ↦ inl found
        | inr (m, old, coming) ↦ inr (m, old, indexing_behind m id old t.session.token coming)
      ];
    }

  -- `Get` makes at most a new tenant, whose session has no token.
  tenants-opened :
      (id j : Text) (t : Tenant)
      → lookup j (opened id s).registry.tenants ≡ some t
      → (lookup j s.registry.tenants ≡ some t) ⊎ ((j ≡ id) × (t ≡ new_tenant id))
  unfolding get
  tenants-opened id j t e = elim (Option-cases (lookup id s.registry.tenants)) [
    | inl missing ↦ elim (Bool-cases (same id j)) [
      | inl here ↦ inr (
        ground (arith, same_iff id j),
        ground (arith, lookup-insert id j (new_tenant id) s.registry.tenants),
      )
      | inr other ↦ inl (ground (arith, lookup-insert id j (new_tenant id) s.registry.tenants))
    ]
    | inr (u, there) ↦ inl (ground arith)
  ]

  pub opened-IsCoherent : (id : Text) → IsCoherent (opened id s)
  unfolding new_tenant
  opened-IsCoherent id = record {
    named = λ j t e. elim (tenants-opened id j t e) [
      | inl before ↦ v.named j t before
      | inr (here, new) ↦ ground arith
    ];
    session_minted = λ j t e there. elim (tenants-opened id j t e) [
      | inl before ↦ v.session_minted j t before there
      | inr (here, new) ↦ absurd (ground arith)
    ];
    index_minted = λ token j e.
        v.index_minted token j (sym (ap (lookup token) (by_token-get id s.registry)) ∙ e);
    held_minted = v.held_minted;
    old_minted = v.old_minted;
    new_minted = v.new_minted;
    replaced = λ n j old new t e there at. elim (tenants-opened id j t at) [
      | inl before ↦ v.replaced n j old new t e there before
      | inr (here, fresh) ↦ λ same. ground arith
    ];
    linked = λ j t e there. elim (tenants-opened id j t e) [
      | inl before ↦ elim (v.linked j t before there) [
        | inl found ↦ inl (ap (lookup t.session.token) (by_token-get id s.registry) ∙ found)
        | inr coming ↦ inr coming
      ]
      | inr (here, new) ↦ absurd (ground arith)
    ];
  }
