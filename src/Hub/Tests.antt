-- ===== src/Hub/Tests.antt =====
-- Two rooms, and a greeting that comes too late.
use media_share.Prelude.{
  ℕ, zero, suc, ◌≡◌, refl, Bool, true, false, List, [], ◌∷◌, Text, codes, arith,
}
use media_share.Tenant.{Message}
use media_share.Hub.{Client, Hub, Step, broadcast_to, greet, new_hub, run, step}
use mathlib.Core.List.{Permᴰ}
use media_share.Hub.Ids.{UniqueIds}
use media_share.Hub.Unordered.{AllNew, IsSame, run-IsSame}
use media_share.Hub.Laws.{AllSane, run-AllSane}
use media_share.Hub.Greetings.{greet-overrun, offers}

abbrev note : Message
note = Message.session (record { active = true; started_at = 3 })

abbrev ann : Text
ann = codes "ann"

abbrev bob : Text
bob = codes "bob"

abbrev steps : List Step
steps =
    Step.connect 1 ann (note ∷ [])
    ∷ Step.connect 2 bob []
    ∷ Step.greeting 1
    ∷ Step.broadcast ann note
    ∷ Step.written 1
    ∷ Step.ended 2
    ∷ []

run-AllSane_example : AllSane (run steps new_hub)
run-AllSane_example = run-AllSane steps

no_panic : (run steps new_hub).panicked ≡ false
unfolding run step new_hub media_share.Hub.on_client broadcast_to media_share.Hub.register
    media_share.Hub.at_client greet media_share.Hub.any_overdrawn media_share.Prelude.same
    media_share.Hub.offer_all media_share.Hub.offer media_share.Hub.write media_share.Hub.remove
no_panic = refl

abbrev late : Client
late = record {
  id = 7;
  room = ann;
  registered = true;
  buffer = [];
  closed = false;
  greeting = note ∷ [];
}

abbrev notes : ℕ → List Message
notes zero = []
notes (suc n) = note ∷ notes n

greet-overrun_example : (greet (offers ann (notes 17) late)).1 ≡ true
greet-overrun_example = greet-overrun late (notes 17) note [] refl refl (omega arith) refl

abbrev first_ann : Hub
first_ann = run (Step.connect 2 bob [] ∷ Step.connect 1 ann (note ∷ []) ∷ []) new_hub

abbrev first_bob : Hub
first_bob = run (Step.connect 1 ann (note ∷ []) ∷ Step.connect 2 bob [] ∷ []) new_hub

abbrev later_steps : List Step
later_steps =
    Step.greeting 1
    ∷ Step.broadcast ann note
    ∷ Step.connect 3 ann []
    ∷ Step.written 1
    ∷ Step.ended 2
    ∷ []

both_ways : IsSame first_ann first_bob
unfolding run step media_share.Hub.register
both_ways = record { clients = ∣ Permᴰ.swap refl refl ∣₁; panicked = refl }

two_ids : UniqueIds first_ann.clients
unfolding run step media_share.Hub.register new_hub
two_ids = ((refl, tt), (tt, tt))

third_new : AllNew later_steps first_ann
unfolding step broadcast_to media_share.Hub.offer_all media_share.Hub.on_client
    media_share.Hub.at_client run media_share.Hub.register media_share.Hub.offer greet
    media_share.Prelude.same new_hub
third_new = (tt, (tt, ((refl, (refl, tt)), (tt, (tt, tt)))))

run-IsSame_example : IsSame (run later_steps first_ann) (run later_steps first_bob)
run-IsSame_example = run-IsSame later_steps first_ann first_bob two_ids third_new both_ways
