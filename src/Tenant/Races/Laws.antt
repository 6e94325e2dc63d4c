-- ===== src/Tenant/Races/Laws.antt =====
-- The tokens as the calls interleave, and the links once no call is under way.
use media_share.Prelude.{
  ℕ, ◌≡◌, ◌≢◌, ◌↔◌, refl, subst, ◌⊎◌, inl, inr, true, false, not_empty, ◌&&◌, none, some, List, [],
  ◌∷◌, Text, is_empty, lookup, arith, Bool-cases, same, same_iff, ◌==◌,
}
use media_share.Random.{Rng, new_token}
use media_share.Session.{valid_iff}
use media_share.Tenant.{Tenant, get, reindex, new_registry, resolve_session}
use media_share.Tenant.Index.{lookup-get, lookup-reindex}
use media_share.Tenant.Links.{resolve_session_inv}
use media_share.Tenant.Races.{
  Change, Event, Race, Thread, opened, set_thread, indexed, at_rest, call_at, read_at, change_at,
  index_at, step, run, IsFresh, AllFresh,
}
use media_share.Tenant.Races.Coherent.{IsCoherent, set_thread-IsCoherent, opened-IsCoherent}
use media_share.Tenant.Races.Changes.{change-IsCoherent}

-- A goroutine brings the index up to date.
module _ (s : Race) (v : IsCoherent s) (n : ℕ) (id old new : Text)
    (at : s.threads n ≡ Thread.indexing id old new) where
  abbrev done : Race
  done = set_thread n Thread.idle (indexed id old new s)

  tenants-done : done.registry.tenants ≡ s.registry.tenants
  unfolding reindex
  tenants-done = refl

  busy-done : (m : ℕ) (th : Thread) → done.threads m ≡ th → th ≢ Thread.idle → s.threads m ≡ th
  busy-done m th e busy = elim (Bool-cases (m == n)) [
    | inl own ↦ absurd (busy (ground arith))
    | inr other ↦ ground arith
  ]

  index_minted-done :
      (token j : Text)
      → lookup token done.registry.by_token ≡ some j
      → lookup token s.minted ≡ some j
  index_minted-done token j e = ground (
    arith,
    lookup-reindex id old new token s.registry,
    same_iff new token,
    v.new_minted n id old new at,
    v.index_minted token j,
  )

  -- An entry that the update does not write stays, unless it is the one that it deletes.
  linked-done :
      (j : Text) (u : Tenant)
      → lookup j s.registry.tenants ≡ some u
      → is_empty u.session.token ≡ false
      → (lookup u.session.token done.registry.by_token ≡ some j)
        ⊎ ((m : ℕ) × (was : Text) × (done.threads m ≡ Thread.indexing j was u.session.token))
  linked-done j u e there =
      let after = lookup-reindex id old new u.session.token s.registry in
      let for_j = v.session_minted j u e there in
      elim (Bool-cases (not_empty new && same new u.session.token)) [
        | inl written ↦ inl (
            ground
              (arith, after, same_iff new u.session.token, v.new_minted n id old new at, for_j))
        | inr not_written ↦ elim (v.linked j u e there) [
          | inl found ↦ inl (elim (Bool-cases (not_empty old && same old u.session.token)) [
            | inl deleted ↦
                let token : u.session.token ≡ old = ground (arith, same_iff old u.session.token) in
                let own : j ≡ id = ground (arith, v.old_minted n id old new at) in
                absurd (
                  v.replaced n id old new u at (ground arith)
                    (subst (λ k. lookup k s.registry.tenants ≡ some u) own e) token)
            | inr kept ↦ ground (arith, after)
          ])
          | inr (m, was, coming) ↦ inr (
            m,
            was,
            elim (Bool-cases (m == n)) [
              | inl own ↦
                  let m_is_n : m ≡ n = ground arith in
                  let mine : s.threads n ≡ Thread.indexing j was u.session.token =
                    subst (λ k. s.threads k ≡ Thread.indexing j was u.session.token) m_is_n
                      coming in
                  absurd (ground (arith, same_iff new u.session.token))
              | inr other ↦ ground arith
            ],
          )
        ]
      ]

  index-IsCoherent : IsCoherent done
  unfolding reindex
  index-IsCoherent = record {
    named = v.named;
    session_minted = v.session_minted;
    index_minted = index_minted-done;
    held_minted =
        λ m j c was e. v.held_minted m j c was (busy-done m (Thread.holding j c was) e (λ x. cc));
    old_minted = λ m j was fresh e.
        v.old_minted m j was fresh (busy-done m (Thread.indexing j was fresh) e (λ x. cc));
    new_minted = λ m j was fresh e.
        v.new_minted m j was fresh (busy-done m (Thread.indexing j was fresh) e (λ x. cc));
    replaced = λ m j was fresh u e.
        v.replaced m j was fresh u (busy-done m (Thread.indexing j was fresh) e (λ x. cc));
    linked = linked-done;
  }

pub at_rest-IsCoherent : IsCoherent at_rest
unfolding new_registry lookup
at_rest-IsCoherent = record {
  named = λ id t e. cc;
  session_minted = λ id t e there. cc;
  index_minted = λ token id e. cc;
  held_minted = λ n id c old e. cc;
  old_minted = λ n id old new e. cc;
  new_minted = λ n id old new e. cc;
  replaced = λ n id old new t e. cc;
  linked = λ id t e there. cc;
}

call_at-IsCoherent :
    (n : ℕ) (id : Text) (c : Change) (th : Thread) (s : Race)
    → s.threads n ≡ th
    → IsCoherent s
    → IsCoherent (call_at n id c th s)
unfolding call_at
call_at-IsCoherent n id c Thread.idle s e v =
    set_thread-IsCoherent (opened id s) (opened-IsCoherent s v id) n (Thread.called id c)
      (λ i old new x. cc) (λ i old new x. cc) (λ i d old x there. cc)
call_at-IsCoherent n id c (Thread.called i d) s e v = v
call_at-IsCoherent n id c (Thread.holding i d old) s e v = v
call_at-IsCoherent n id c (Thread.indexing i old new) s e v = v

read_at-IsCoherent :
    (n : ℕ) (th : Thread) (s : Race) → s.threads n ≡ th → IsCoherent s → IsCoherent (read_at n th s)
unfolding read_at
read_at-IsCoherent n (Thread.called id c) s e v =
    let w = opened-IsCoherent s v id in
    let t = (get id s.registry).0 in
    set_thread-IsCoherent (opened id s) w n (Thread.holding id c t.session.token)
      (λ i old new x. cc) (λ i old new x. cc)
      (λ i d old x there. ground (arith, w.session_minted id t (lookup-get id s.registry)))
read_at-IsCoherent n Thread.idle s e v = v
read_at-IsCoherent n (Thread.holding i d old) s e v = v
read_at-IsCoherent n (Thread.indexing i old new) s e v = v

change_at-IsCoherent :
    (n : ℕ) (rng : Rng) (now : ℕ) (th : Thread) (s : Race)
    → s.threads n ≡ th
    → lookup (new_token rng) s.minted ≡ none
    → IsCoherent s
    → IsCoherent (change_at n rng now th s)
unfolding change_at
change_at-IsCoherent n rng now (Thread.holding id c old) s e fresh v =
    change-IsCoherent (opened id s) (opened-IsCoherent s v id) n id c old rng now
      (get id s.registry).0 e (lookup-get id s.registry) fresh
change_at-IsCoherent n rng now Thread.idle s e fresh v = v
change_at-IsCoherent n rng now (Thread.called i d) s e fresh v = v
change_at-IsCoherent n rng now (Thread.indexing i old new) s e fresh v = v

index_at-IsCoherent :
    (n : ℕ) (th : Thread) (s : Race)
    → s.threads n ≡ th
    → IsCoherent s
    → IsCoherent (index_at n th s)
unfolding index_at
index_at-IsCoherent n (Thread.indexing id old new) s e v = index-IsCoherent s v n id old new e
index_at-IsCoherent n Thread.idle s e v = v
index_at-IsCoherent n (Thread.called i d) s e v = v
index_at-IsCoherent n (Thread.holding i d old) s e v = v

step-IsCoherent : (e : Event) (s : Race) → IsFresh e s → IsCoherent s → IsCoherent (step e s)
unfolding step
step-IsCoherent (Event.open_tenant id) s f v = opened-IsCoherent s v id
step-IsCoherent (Event.call n id c) s f v = call_at-IsCoherent n id c (s.threads n) s refl v
step-IsCoherent (Event.read_token n) s f v = read_at-IsCoherent n (s.threads n) s refl v
step-IsCoherent (Event.change n rng now) s f v =
    change_at-IsCoherent n rng now (s.threads n) s refl f v
step-IsCoherent (Event.index n) s f v = index_at-IsCoherent n (s.threads n) s refl v

run-IsCoherent_from :
    (es : List Event) (s : Race) → AllFresh es s → IsCoherent s → IsCoherent (run es s)
unfolding run
run-IsCoherent_from [] s f v = v
run-IsCoherent_from (e ∷ es) s f v =
    run-IsCoherent_from es (step e s) f.1 (step-IsCoherent e s f.0 v)

coherent-resolves :
    (s : Race) (token : Text) (t : Tenant)
    → IsCoherent s
    → ((n : ℕ) → s.threads n ≡ Thread.idle)
    → (resolve_session token s.registry ≡ some t) ↔ (
        (lookup t.streamer_id s.registry.tenants ≡ some t)
        × (t.session.active ≡ true)
        × (t.session.token ≡ token)
        × (is_empty token ≡ false))
unfolding resolve_session
coherent-resolves s token t v rest = (
  λ e.
      let (id, at, found, ok) = resolve_session_inv s.registry token t e in
      ground (arith, v.named id t found, (valid_iff token t.session).0 ok),
  λ (found, a, e, there).
      let indexed : lookup t.session.token s.registry.by_token ≡ some t.streamer_id =
        elim (v.linked t.streamer_id t found (ground arith)) [
          | inl linked ↦ linked
          | inr (n, old, coming) ↦ absurd (cc (rest n, coming))
        ] in
      ground (arith, (valid_iff token t.session).1 (a, e, there)),
)

-- However `StartSession`, `RegenerateSession`, `StopSession` and `Get` interleave from the empty registry, as
-- long as no token is minted twice: when no call is under way, a token resolves to a tenant exactly if the
-- tenant is there, its session is active with that token, and the token is not empty.
pub run-resolves :
    (es : List Event) (token : Text) (t : Tenant)
    → AllFresh es at_rest
    → ((n : ℕ) → (run es at_rest).threads n ≡ Thread.idle)
    → (resolve_session token (run es at_rest).registry ≡ some t) ↔ (
        (lookup t.streamer_id (run es at_rest).registry.tenants ≡ some t)
        × (t.session.active ≡ true)
        × (t.session.token ≡ token)
        × (is_empty token ≡ false))
run-resolves es token t f rest =
    coherent-resolves (run es at_rest) token t (run-IsCoherent_from es at_rest f at_rest-IsCoherent)
      rest
