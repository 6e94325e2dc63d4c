-- ===== src/Hub/Unordered.antt =====
-- The code keeps the clients in a map, and walks it in an order that is not specified: hubs that hold the same clients in other orders.
use mathlib.Core.List.{Perm, Permᴰ}
use mathlib.Core.Logic.{∥∥₁_map, ∥∥₁_elim}
use mathlib.Core.Bool.{Bool-set}
use media_share.Prelude.{
  ℕ, ◌≡◌, refl, sym, ap, subst, ◌∙◌, inl, inr, Bool, List, [], ◌∷◌, Text, arith, Bool-cases, same,
  ◌==◌,
}
use media_share.Tenant.{Message}
use media_share.Hub.{
  Client, Hub, Step, at_client, greet, write, remove, offer, offer_all, any_overdrawn, is_overdrawn,
  broadcast_to, register, on_client, step, run,
}
use media_share.Hub.Ids.{
  Lacks, UniqueIds, offer_all-UniqueIds, at_client-UniqueIds, greet-id, write-id, remove-id,
}

-- The same clients, in whatever order.
pub record IsSame (h h' : Hub) : Type 0 where
  pub clients : Perm h.clients h'.clients
  pub panicked : h.panicked ≡ h'.panicked

Lacks-Permᴰ : (id : ℕ) {cs ds : List Client} → Permᴰ cs ds → Lacks id cs → Lacks id ds
Lacks-Permᴰ id Permᴰ.nil h = tt
Lacks-Permᴰ id (Permᴰ.cons e d) h =
    (ap (λ (c : Client). c.id == id) (sym e) ∙ h.0, Lacks-Permᴰ id d h.1)
Lacks-Permᴰ id (Permᴰ.swap e e') h = (
  ap (λ (c : Client). c.id == id) (sym e') ∙ h.1.0,
  (ap (λ (c : Client). c.id == id) (sym e) ∙ h.0, h.1.1),
)
Lacks-Permᴰ id (Permᴰ.trans d d') h = Lacks-Permᴰ id d' (Lacks-Permᴰ id d h)

offer_all-Permᴰ :
    (room : Text) (msg : Message) {cs ds : List Client}
    → Permᴰ cs ds
    → Permᴰ (offer_all room msg cs) (offer_all room msg ds)
unfolding offer_all
offer_all-Permᴰ room msg Permᴰ.nil = Permᴰ.nil
offer_all-Permᴰ room msg (Permᴰ.cons e d) =
    Permᴰ.cons (ap (offer room msg) e) (offer_all-Permᴰ room msg d)
offer_all-Permᴰ room msg (Permᴰ.swap e e') =
    Permᴰ.swap (ap (offer room msg) e) (ap (offer room msg) e')
offer_all-Permᴰ room msg (Permᴰ.trans d d') =
    Permᴰ.trans (offer_all-Permᴰ room msg d) (offer_all-Permᴰ room msg d')

any_overdrawn-Permᴰ :
    (room : Text) (msg : Message) {cs ds : List Client}
    → Permᴰ cs ds
    → any_overdrawn room msg cs ≡ any_overdrawn room msg ds
unfolding any_overdrawn
any_overdrawn-Permᴰ room msg Permᴰ.nil = refl
any_overdrawn-Permᴰ room msg (Permᴰ.cons e d) =
    ground (arith, ap (is_overdrawn room msg) e, any_overdrawn-Permᴰ room msg d)
any_overdrawn-Permᴰ room msg (Permᴰ.swap e e') =
    ground (arith, ap (is_overdrawn room msg) e, ap (is_overdrawn room msg) e')
any_overdrawn-Permᴰ room msg (Permᴰ.trans d d') =
    any_overdrawn-Permᴰ room msg d ∙ any_overdrawn-Permᴰ room msg d'

UniqueIds-Permᴰ : {cs ds : List Client} → Permᴰ cs ds → UniqueIds cs → UniqueIds ds
UniqueIds-Permᴰ Permᴰ.nil u = tt
UniqueIds-Permᴰ (Permᴰ.cons {l₂ = l} e d) u =
    (subst (λ (c : Client). Lacks c.id l) e (Lacks-Permᴰ _ d u.0), UniqueIds-Permᴰ d u.1)
UniqueIds-Permᴰ (Permᴰ.swap {l = l} e e') u = (
  (
    ground (arith, u.0.0, ap (λ (c : Client). c.id) e, ap (λ (c : Client). c.id) e'),
    subst (λ (c : Client). Lacks c.id l) e' u.1.0,
  ),
  (subst (λ (c : Client). Lacks c.id l) e u.0.1, u.1.1),
)
UniqueIds-Permᴰ (Permᴰ.trans d d') u = UniqueIds-Permᴰ d' (UniqueIds-Permᴰ d u)

-- One client's step.
module _ (id : ℕ) (act : Client → Client × Bool) where
  at_client-Permᴰ :
      {cs ds : List Client}
      → Permᴰ cs ds
      → UniqueIds cs
      → Permᴰ (at_client id act cs).0 (at_client id act ds).0
        × ((at_client id act cs).1 ≡ (at_client id act ds).1)
  unfolding at_client
  at_client-Permᴰ Permᴰ.nil u = (Permᴰ.nil, refl)
  at_client-Permᴰ (Permᴰ.cons {a = a} {b = b} e d) u =
      let same_id : (b.id == id) ≡ (a.id == id) = ap (λ (c : Client). c.id == id) (sym e) in
      let rest = at_client-Permᴰ d u.1 in
      elim (Bool-cases (a.id == id)) [
        | inl here ↦
            rw (same_id, here) (Permᴰ.cons (ap (λ c. (act c).0) e) d, ap (λ c. (act c).1) e)
        | inr other ↦ rw (same_id, other) (Permᴰ.cons e rest.0, rest.1)
      ]
  at_client-Permᴰ (Permᴰ.swap {a = a} {b = b} {a' = a'} {b' = b'} e e') u =
      let same_a : (b'.id == id) ≡ (a.id == id) = ap (λ (c : Client). c.id == id) (sym e) in
      let same_b : (a'.id == id) ≡ (b.id == id) = ap (λ (c : Client). c.id == id) (sym e') in
      elim (Bool-cases (a.id == id)) [
        | inl first ↦ elim (Bool-cases (b.id == id)) [
          | inl second ↦ absurd (ground (arith, u.0.0))
          | inr other ↦
              rw (same_a, same_b, first, other)
                (Permᴰ.swap (ap (λ c. (act c).0) e) e', ap (λ c. (act c).1) e)
        ]
        | inr no_first ↦ elim (Bool-cases (b.id == id)) [
          | inl second ↦
              rw (same_a, same_b, no_first, second)
                (Permᴰ.swap e (ap (λ c. (act c).0) e'), ap (λ c. (act c).1) e')
          | inr other ↦ rw (same_a, same_b, no_first, other) (Permᴰ.swap e e', refl)
        ]
      ]
  at_client-Permᴰ (Permᴰ.trans d d') u =
      let (p, e) = at_client-Permᴰ d u in
      let (p', e') = at_client-Permᴰ d' (UniqueIds-Permᴰ d u) in (Permᴰ.trans p p', e ∙ e')

-- A client that connects is not there yet: the code makes a new one.
abbrev pub IsNew : Step → Hub → Type 0
IsNew (Step.connect id room msgs) h = Lacks id h.clients
IsNew _ h = Unit

abbrev pub AllNew : List Step → Hub → Type 0
AllNew [] h = Unit
AllNew (x ∷ xs) h = IsNew x h × AllNew xs (step x h)

step-UniqueIds :
    (x : Step) (h : Hub) → IsNew x h → UniqueIds h.clients → UniqueIds (step x h).clients
unfolding step broadcast_to register on_client
step-UniqueIds (Step.broadcast room msg) h new u = offer_all-UniqueIds room msg h.clients u
step-UniqueIds (Step.connect id room msgs) h new u = (new, u)
step-UniqueIds (Step.greeting id) h new u = at_client-UniqueIds id greet greet-id h.clients u
step-UniqueIds (Step.written id) h new u = at_client-UniqueIds id write write-id h.clients u
step-UniqueIds (Step.ended id) h new u = at_client-UniqueIds id remove remove-id h.clients u

abbrev Reordered : Hub → Hub → Type 0
Reordered h h' = Permᴰ h.clients h'.clients × (h.panicked ≡ h'.panicked)

step-Reordered :
    (x : Step) (h h' : Hub)
    → UniqueIds h.clients
    → Reordered h h'
    → Reordered (step x h) (step x h')
unfolding step broadcast_to register on_client
step-Reordered (Step.broadcast room msg) h h' u (p, e) =
    (offer_all-Permᴰ room msg p, ground (arith, e, any_overdrawn-Permᴰ room msg p))
step-Reordered (Step.connect id room msgs) h h' u (p, e) = (Permᴰ.cons refl p, e)
step-Reordered (Step.greeting id) h h' u (p, e) =
    let (q, f) = at_client-Permᴰ id greet p u in (q, ground (arith, e, f))
step-Reordered (Step.written id) h h' u (p, e) =
    let (q, f) = at_client-Permᴰ id write p u in (q, ground (arith, e, f))
step-Reordered (Step.ended id) h h' u (p, e) =
    let (q, f) = at_client-Permᴰ id remove p u in (q, ground (arith, e, f))

run-Reordered :
    (xs : List Step) (h h' : Hub)
    → UniqueIds h.clients
    → AllNew xs h
    → Reordered h h'
    → Reordered (run xs h) (run xs h')
unfolding run
run-Reordered [] h h' u new same = same
run-Reordered (x ∷ xs) h h' u new same =
    run-Reordered xs (step x h) (step x h') (step-UniqueIds x h new.0 u) new.1
      (step-Reordered x h h' u same)

-- The order of the clients is no matter, as long as no two have one id and a client that connects is a new
-- one: however the steps interleave, hubs with the same clients in two orders come to the same clients, in
-- some order, and panic alike.
pub run-IsSame :
    (xs : List Step) (h h' : Hub)
    → UniqueIds h.clients
    → AllNew xs h
    → IsSame h h'
    → IsSame (run xs h) (run xs h')
run-IsSame xs h h' u new same = record {
  clients =
      ∥∥₁_map {B = Permᴰ (run xs h).clients (run xs h').clients} same.clients
        (λ p. (run-Reordered xs h h' u new (p, same.panicked)).0);
  panicked =
      ∥∥₁_elim same.clients (Bool-set (run xs h).panicked (run xs h').panicked)
        (λ p. (run-Reordered xs h h' u new (p, same.panicked)).1);
}
