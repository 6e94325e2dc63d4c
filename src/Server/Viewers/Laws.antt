-- ===== src/Server/Viewers/Laws.antt =====
-- The accounts behind the viewers' handlers and the moderators' handlers.
use media_share.Prelude.{
  ℕ, inl, inr, Bool, true, false, Option, none, some, Text, is_empty, arith, Bool-cases,
}
use media_share.Prelude.Int.{ℤ}
use media_share.Random.{Rng}
use media_share.Store.Db.{Viewer, Error, Result, ok, err, World}
use media_share.Store.Credits.{balance, grant_credits}
use media_share.Store.Credits.Audit.{same_credits-IsAudited}
use media_share.Store.Credits.Accounts.{CreditOp, IsSettled, perform, perform-IsSettled}
use media_share.Store.Sessions.{
  create_auth_session, insert_auth_session, moderator_link, regenerate_moderator_link,
  resolve_moderator_link, revoke_moderator_access,
}
use media_share.Store.Sessions.Revocation.{
  regenerate-accounts, regenerate_atomic, revoke-accounts, revoke_atomic,
}
use media_share.Tenant.{Tenant}
use media_share.Auth.{Fresh, login_moderator}
use media_share.Auth.Middleware.{Request, authenticate_viewer}
use media_share.Auth.Middleware.Frames.{Frames, authenticate_viewer-Frames}
use media_share.Server.{Site}
use media_share.Server.Sound.{IsSound, framed-IsSettled}
use media_share.Server.Handlers.{
  handle_moderators_link, handle_moderators_revoke, handle_moderators_status,
}
use media_share.Server.Viewers.{
  Grant, balance_in, channel_of, claim, granted, grant_to, handle_dev_credit, handle_mod_claim,
  handle_viewer_me, told,
}

balance-IsSettled : (v s : Text) (w : World) → IsSettled w → IsSettled (balance v s w).1
balance-IsSettled v s w h = unfold perform in perform-IsSettled (CreditOp.check_balance v s) w h

balance_in-IsSettled :
    (v : Viewer) (t : Option Tenant) (w : World) → IsSettled w → IsSettled (balance_in v t w).1
unfolding balance_in
balance_in-IsSettled v none w h = h
balance_in-IsSettled v (some t) w h = balance-IsSettled v.id t.streamer_id w h

pub viewer_me-IsSound :
    (token : Text) (v : Viewer) (s : Site) → IsSound s → IsSound (handle_viewer_me v token s).1
unfolding handle_viewer_me
viewer_me-IsSound token v s h = record {
  settled = balance_in-IsSettled v _ s.world h.settled;
  indexed = h.indexed;
  queues = h.queues;
}

told-IsSettled :
    (v s : Text) (r : Result (Unit {0})) (w : World) → IsSettled w → IsSettled (told v s r w).1
unfolding told
told-IsSettled v s (ok _) w h = balance-IsSettled v s w h
told-IsSettled v s (err e) w h = h

granted-IsSettled :
    (rng : Rng) (now : ℕ) (v s : Text) (amount : ℤ) (w : World)
    → IsSettled w
    → IsSettled (granted rng now v s amount w).1
unfolding granted
granted-IsSettled rng now v s amount w h = elim (Bool-cases (is_empty s)) [
  | inl nowhere ↦ rw nowhere h
  | inr there ↦
      let g = grant_credits rng now v s amount w in
      rw there (
        told-IsSettled v s g.0 g.1
          (unfold perform in perform-IsSettled (CreditOp.grant rng now v s amount) w h))
]

grant_to-IsSettled :
    (rng : Rng) (now : ℕ) (s : Text) (amount : ℤ) (who : Result Viewer) (w : World)
    → IsSettled w
    → IsSettled (grant_to rng now s amount who w).1
unfolding grant_to
grant_to-IsSettled rng now s amount (ok v) w h = granted-IsSettled rng now v.id s amount w h
grant_to-IsSettled rng now s amount (err e) w h = h

pub dev_credit-IsSound :
    (dev_login : Bool) (rng : Rng) (now : ℕ) (req : Request) (g : Grant) (s : Site)
    → IsSound s
    → IsSound (handle_dev_credit dev_login rng now req g s).1
unfolding handle_dev_credit
dev_credit-IsSound false rng now req g s h = h
dev_credit-IsSound true rng now req g s h =
    let a = authenticate_viewer now req s.world in
    record {
      settled =
          grant_to-IsSettled rng now (channel_of g s) _ a.0 a.1
            (framed-IsSettled s.world a.1 (authenticate_viewer-Frames now req s.world) h.settled);
      indexed = h.indexed;
      queues = h.queues;
    }

login_moderator-Frames : (f : Fresh) (id : Text) (w : World) → Frames w (login_moderator f id w).1
unfolding login_moderator create_auth_session insert_auth_session
login_moderator-Frames f id w = (ground arith, ground arith, ground arith)

pub resolve_link-Frames : (token : Text) (w : World) → Frames w (resolve_moderator_link token w).1
unfolding resolve_moderator_link
resolve_link-Frames token w = (ground arith, ground arith, ground arith)

claim-IsSettled :
    (f : Fresh) (r : Result Text) (w : World) → IsSettled w → IsSettled (claim f r w).1
unfolding claim
claim-IsSettled f (ok id) w h =
    framed-IsSettled w (login_moderator f id w).1 (login_moderator-Frames f id w) h
claim-IsSettled f (err Error.not_found) w h = h
claim-IsSettled f (err Error.failure) w h = h
claim-IsSettled f (err Error.unique_violation) w h = h
claim-IsSettled f (err Error.foreign_key) w h = h
claim-IsSettled f (err Error.negative_cost) w h = h
claim-IsSettled f (err Error.unauthenticated) w h = h
claim-IsSettled f (err Error.exchange_failed) w h = h

pub mod_claim-IsSettled :
    (f : Fresh) (token : Text) (w : World) → IsSettled w → IsSettled (handle_mod_claim f token w).1
unfolding handle_mod_claim
mod_claim-IsSettled f token w h =
    let r = resolve_moderator_link token w in
    claim-IsSettled f r.0 r.1 (framed-IsSettled w r.1 (resolve_link-Frames token w) h)

pub moderators_status-IsSettled :
    (id : Text) (w : World) → IsSettled w → IsSettled (handle_moderators_status id w).1
unfolding handle_moderators_status
moderators_status-IsSettled id w h =
    framed-IsSettled w (moderator_link id w).1
      (unfold moderator_link in (ground arith, ground arith, ground arith)) h

pub moderators_link-IsSettled :
    (rng : Rng) (now : ℕ) (id : Text) (w : World)
    → IsSettled w
    → IsSettled (handle_moderators_link rng now id w).1
unfolding handle_moderators_link
moderators_link-IsSettled rng now id w h =
    let (balances, ledger) = regenerate-accounts rng now id w h.idle in
    record {
      audited =
          same_credits-IsAudited w.db (regenerate_moderator_link rng now id w).1.db ledger balances
            h.audited;
      idle = (regenerate_atomic rng now id w h.idle).1;
    }

pub moderators_revoke-IsSettled :
    (id : Text) (w : World) → IsSettled w → IsSettled (handle_moderators_revoke id w).1
unfolding handle_moderators_revoke
moderators_revoke-IsSettled id w h =
    let (balances, ledger) = revoke-accounts id w h.idle in
    record {
      audited =
          same_credits-IsAudited w.db (revoke_moderator_access id w).1.db ledger balances h.audited;
      idle = (revoke_atomic id w h.idle).1;
    }
