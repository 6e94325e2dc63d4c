-- ===== src/Tenant/Races/Tests.antt =====
-- Two goroutines open the session of one streamer at once.
use media_share.Prelude.{
  ℕ, zero, suc, ◌≡◌, ◌↔◌, refl, true, false, some, none, List, [], ◌∷◌, Text, codes, is_empty,
  lookup, arith,
}
use media_share.Random.{Rng, new_token}
use media_share.Tenant.{Tenant, get, resolve_session}
use media_share.Tenant.Races.{AllFresh, Change, Event, Thread, at_rest, run}
use media_share.Tenant.Races.Laws.{run-resolves}

abbrev bytes : ℕ → Rng
bytes b _ = b

abbrev ann : Text
ann = codes "ann"

abbrev both : List Event
both =
    Event.call 0 ann Change.start
    ∷ Event.call 1 ann Change.start
    ∷ Event.read_token 0
    ∷ Event.read_token 1
    ∷ Event.change 0 (bytes 1) 5
    ∷ Event.change 1 (bytes 2) 6
    ∷ Event.index 1
    ∷ Event.index 0
    ∷ []

both_fresh : AllFresh both at_rest
unfolding lookup media_share.Tenant.Races.step media_share.Prelude.insert media_share.Prelude.same
    new_token media_share.Prelude.delete
both_fresh = (tt, (tt, (tt, (tt, (refl, (refl, (tt, (tt, tt))))))))

both_done : (n : ℕ) → (run both at_rest).threads n ≡ Thread.idle
unfolding run media_share.Tenant.Races.step
both_done zero = refl
both_done (suc zero) = refl
both_done (suc (suc n)) = ground arith

abbrev ann_tenant : Tenant
ann_tenant = (get ann (run both at_rest).registry).0

-- The later change holds.
run-resolves_example :
    (resolve_session (new_token (bytes 2)) (run both at_rest).registry ≡ some ann_tenant) ↔ (
      (lookup ann_tenant.streamer_id (run both at_rest).registry.tenants ≡ some ann_tenant)
      × (ann_tenant.session.active ≡ true)
      × (ann_tenant.session.token ≡ new_token (bytes 2))
      × (is_empty (new_token (bytes 2)) ≡ false))
run-resolves_example = run-resolves both (new_token (bytes 2)) ann_tenant both_fresh both_done

-- The token that was replaced in between stays in the index, but it does not resolve.
left_over : lookup (new_token (bytes 1)) (run both at_rest).registry.by_token ≡ some ann
unfolding lookup run media_share.Tenant.Races.step media_share.Tenant.reindex
    media_share.Tenant.Races.token_of new_token media_share.Prelude.insert media_share.Prelude.same
left_over = refl

left_over_refused : resolve_session (new_token (bytes 1)) (run both at_rest).registry ≡ none
unfolding resolve_session new_token lookup run media_share.Tenant.Races.step
    media_share.Tenant.reindex media_share.Tenant.Races.token_of media_share.Prelude.insert
    media_share.Prelude.same media_share.Tenant.set_session media_share.Session.valid
    media_share.Tenant.Races.changed media_share.Session.start
left_over_refused = refl
