-- ===== src/Tenant/Tests.antt =====
-- The registry with two streamers.
use media_share.Prelude.{
  ℕ, ◌≡◌, ◌≢◌, ◌↔◌, refl, Bool, true, false, Option, none, some, List, [], ◌∷◌, Text, codes,
  is_empty, lookup, same_iff, arith, if◌then◌else◌,
}
use media_share.Random.{Rng, new_token}
use media_share.Tenant.{
  Tenant, Registry, get, new_registry, regenerate_session, resolve_session, start_session,
  stop_session,
}
use media_share.Tenant.Index.{IsIndexed}
use media_share.Tenant.Links.{AllFresh, Control, control, control_isolated, run, run-IsIndexed}

abbrev bytes : ℕ → Rng
bytes b _ = b

abbrev ann : Text
ann = codes "ann"

abbrev bob : Text
bob = codes "bob"

abbrev calls : List Control
calls = Control.start ann (bytes 1) 5 ∷ Control.start bob (bytes 2) 6 ∷ []

abbrev two : Registry
two = run calls new_registry

calls_fresh : AllFresh calls new_registry
unfolding control start_session new_registry new_token get lookup media_share.Prelude.insert
    media_share.Prelude.same media_share.Prelude.delete media_share.Tenant.new_tenant
calls_fresh = (refl, (refl, tt))

run-IsIndexed_example : IsIndexed (run calls new_registry)
run-IsIndexed_example = run-IsIndexed calls calls_fresh

two-IsIndexed : IsIndexed two
two-IsIndexed = run-IsIndexed calls calls_fresh

abbrev token_of : Text → Text
token_of id = (get id two).0.session.token

abbrev ann_tenant : Tenant
ann_tenant = (get ann two).0

ann_resolves : resolve_session (token_of ann) two ≡ some ann_tenant
unfolding run control start_session new_registry new_token get resolve_session lookup
    media_share.Prelude.insert media_share.Prelude.same media_share.Prelude.delete
    media_share.Tenant.new_tenant media_share.Session.valid
ann_resolves = refl

ann_named : ann_tenant.streamer_id ≡ ann
unfolding run control start_session new_registry new_token get lookup media_share.Prelude.insert
    media_share.Prelude.same media_share.Prelude.delete media_share.Tenant.new_tenant
ann_named = refl

fresh_token : lookup (new_token (bytes 3)) two.by_token ≡ none
unfolding run control start_session new_registry new_token get lookup media_share.Prelude.insert
    media_share.Prelude.same media_share.Prelude.delete media_share.Tenant.new_tenant
fresh_token = refl

other_still_open : resolve_session (token_of ann) (stop_session bob two).registry ≡ some ann_tenant
unfolding run control start_session stop_session new_registry new_token get resolve_session lookup
    media_share.Prelude.insert media_share.Prelude.same media_share.Prelude.delete
    media_share.Tenant.new_tenant media_share.Session.valid
other_still_open = refl

ann_not_bob : ann_tenant.streamer_id ≢ bob
ann_not_bob e = ground (arith, ann_named, same_iff ann bob)

control_isolated_example :
    resolve_session (token_of ann) (control (Control.stop bob) two) ≡ some ann_tenant
control_isolated_example =
    control_isolated (Control.stop bob) two (token_of ann) ann_tenant two-IsIndexed tt ann_not_bob
      ann_resolves
