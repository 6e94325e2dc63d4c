-- ===== src/Tenant/Queues.antt =====
-- The queues of the tenants, whatever is done to the registry.
use media_share.Prelude.{
  ◌≡◌, refl, ◌∙◌, inl, inr, some, [], Text, same, same_iff, lookup, insert, lookup-insert,
  if◌then◌else◌, arith, Bool-cases, Option-cases,
}
use media_share.Session
use media_share.Queue
use media_share.Queue.Invariant.{IsValid, new_manager-IsValid}
use media_share.Tenant.{
  Tenant, Registry, get, get_found, put_tenant, new_tenant, controlled, set_session, reindex,
  start_session, regenerate_session, stop_session,
}
use media_share.Tenant.Index.{IsIndexed, lookup-get}
use media_share.Tenant.Links.{Control, control}

-- The registry with another queue for a tenant.
abbrev pub requeued : Text → Tenant → Queue.Manager → Registry → Registry
requeued id t q r = record r { tenants = insert id (record t { queue = q }) r.tenants }

abbrev pub QueuesValid : Registry → Type 0
QueuesValid r = (id : Text) (t : Tenant) → lookup id r.tenants ≡ some t → IsValid t.queue

module _ (id : Text) (t : Tenant) (q : Queue.Manager) (r : Registry) where
  lookup-requeued :
      (j : Text)
      → lookup j (requeued id t q r).tenants
        ≡ (if same id j then some (record t { queue = q }) else lookup j r.tenants)
  lookup-requeued j = lookup-insert id j (record t { queue = q }) r.tenants

  -- What a tenant of the new registry has of the old one: the id and the session.
  requeued-inv :
      (j : Text) (u : Tenant)
      → lookup id r.tenants ≡ some t
      → lookup j (requeued id t q r).tenants ≡ some u
      → (old : Tenant) × (lookup j r.tenants ≡ some old)
        × (u.session ≡ old.session)
        × (u.streamer_id ≡ old.streamer_id)
  requeued-inv j u at e = elim (Bool-cases (same id j)) [
    | inl here ↦ (
      t,
      ground (arith, same_iff id j),
      ground (arith, lookup-requeued j),
      ground (arith, lookup-requeued j),
    )
    | inr other ↦ (u, ground (arith, lookup-requeued j), refl, refl)
  ]

  pub requeued-IsIndexed :
      lookup id r.tenants ≡ some t → IsIndexed r → IsIndexed (requeued id t q r)
  requeued-IsIndexed at v = record {
    named = λ j u e.
        let (old, there, same_session, same_id) = requeued-inv j u at e in
        same_id ∙ v.named j old there;
    closed = λ j u e a.
        let (old, there, same_session, same_id) = requeued-inv j u at e in
        ground (arith, v.closed j old there);
    indexed = λ j u e n.
        let (old, there, same_session, same_id) = requeued-inv j u at e in
        ground (arith, v.indexed j old there);
    owned = λ token j e.
        let (old, there, tok, n) = v.owned token j e in
        elim (Bool-cases (same id j)) [
          | inl here ↦ (
            record t { queue = q },
            ground (arith, lookup-requeued j),
            ground (arith, same_iff id j),
            n,
          )
          | inr other ↦ (old, ground (arith, lookup-requeued j), tok, n)
        ];
  }

  pub requeued-QueuesValid : IsValid q → QueuesValid r → QueuesValid (requeued id t q r)
  requeued-QueuesValid valid all j u e = elim (Bool-cases (same id j)) [
    | inl here ↦ ground (arith, lookup-requeued j, valid)
    | inr other ↦ all j u (ground (arith, lookup-requeued j))
  ]

get-QueuesValid : (id : Text) (r : Registry) → QueuesValid r → QueuesValid (get id r).1
unfolding get get_found put_tenant new_tenant
get-QueuesValid id r all = elim (Option-cases (lookup id r.tenants)) [
  | inr (t, e) ↦ rw e all
  | inl e ↦ rw e (λ j u at. elim (Bool-cases (same id j)) [
    | inl here ↦
        ground (arith, lookup-insert id j (new_tenant id) r.tenants, new_manager-IsValid (some id))
    | inr other ↦ all j u (ground (arith, lookup-insert id j (new_tenant id) r.tenants))
  ])
]

controlled-QueuesValid :
    {A : Type 0} (id : Text) (token_of : A → Text) (change : Session.Manager → Session.Outcome A)
    (r : Registry)
    → QueuesValid r
    → QueuesValid (controlled id token_of change r).registry
unfolding controlled set_session put_tenant reindex
controlled-QueuesValid id token_of change r all j u at =
    let t = (get id r).0 in
    let m = (change t.session).manager in
    let kept = get-QueuesValid id r all in
    elim (Bool-cases (same id j)) [
      | inl here ↦ ground (
        arith,
        lookup-insert id j (record t { session = m }) (get id r).1.tenants,
        kept id t (lookup-get id r),
      )
      | inr other ↦
          kept j u
            (ground (arith, lookup-insert id j (record t { session = m }) (get id r).1.tenants))
    ]

pub control-QueuesValid : (c : Control) (r : Registry) → QueuesValid r → QueuesValid (control c r)
unfolding control
control-QueuesValid (Control.open_tenant id) r all = get-QueuesValid id r all
control-QueuesValid (Control.start id rng now) r all =
    unfold start_session in controlled-QueuesValid id (λ tok. tok) (Session.start rng now) r all
control-QueuesValid (Control.regenerate id rng now) r all =
    unfold regenerate_session in
    controlled-QueuesValid id (λ tok. tok) (Session.regenerate rng now) r all
control-QueuesValid (Control.stop id) r all =
    unfold stop_session in controlled-QueuesValid id (λ _. []) Session.stop r all
