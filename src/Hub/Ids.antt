-- ===== src/Hub/Ids.antt =====
-- The ids of the clients, and what the steps do to them.
use media_share.Prelude.{
  ℕ, ◌≡◌, refl, sym, ap, subst, ◌∙◌, inl, inr, Bool, false, List, [], ◌∷◌, Text, All, arith,
  Bool-cases, ◌==◌,
}
use media_share.Tenant.{Message}
use media_share.Hub.{
  Client, at_client, greet, greet_next, write, write_next, remove, offer, offer_all,
}

abbrev pub Lacks : ℕ → List Client → Type 0
Lacks id = All (λ c. (c.id == id) ≡ false)

abbrev pub UniqueIds : List Client → Type 0
UniqueIds [] = Unit
UniqueIds (c ∷ cs) = Lacks c.id cs × UniqueIds cs

-- The ids stay as they are.
module _ (room : Text) (msg : Message) where
  offer-id : (c : Client) → (offer room msg c).id ≡ c.id
  unfolding offer
  offer-id c = ground arith

  Lacks-offer_all : (id : ℕ) (cs : List Client) → Lacks id cs → Lacks id (offer_all room msg cs)
  unfolding offer_all
  Lacks-offer_all id [] h = tt
  Lacks-offer_all id (c ∷ cs) h = (ap (λ k. k == id) (offer-id c) ∙ h.0, Lacks-offer_all id cs h.1)

  pub offer_all-UniqueIds : (cs : List Client) → UniqueIds cs → UniqueIds (offer_all room msg cs)
  unfolding offer_all
  offer_all-UniqueIds [] u = tt
  offer_all-UniqueIds (c ∷ cs) u = (
    subst (λ k. Lacks k (offer_all room msg cs)) (sym (offer-id c)) (Lacks-offer_all c.id cs u.0),
    offer_all-UniqueIds cs u.1,
  )

module _ (id : ℕ) (act : Client → Client × Bool)
    (same_id : (c : Client) → (act c).0.id ≡ c.id) where
  Lacks-at_client : (k : ℕ) (cs : List Client) → Lacks k cs → Lacks k (at_client id act cs).0
  unfolding at_client
  Lacks-at_client k [] h = tt
  Lacks-at_client k (c ∷ cs) h = elim (Bool-cases (c.id == id)) [
    | inl here ↦ rw here (ap (λ j. j == k) (same_id c) ∙ h.0, h.1)
    | inr other ↦ rw other (h.0, Lacks-at_client k cs h.1)
  ]

  pub at_client-UniqueIds : (cs : List Client) → UniqueIds cs → UniqueIds (at_client id act cs).0
  unfolding at_client
  at_client-UniqueIds [] u = tt
  at_client-UniqueIds (c ∷ cs) u = elim (Bool-cases (c.id == id)) [
    | inl here ↦ rw here (subst (λ k. Lacks k cs) (sym (same_id c)) u.0, u.1)
    | inr other ↦ rw other (Lacks-at_client c.id cs u.0, at_client-UniqueIds cs u.1)
  ]

pub greet-id : (c : Client) → (greet c).0.id ≡ c.id
unfolding greet
greet-id c = elim c.greeting as (λ msgs. (greet_next msgs c).0.id ≡ c.id) [
  | [] ↦ refl
  | msg ∷ rest ↦ ground arith
]

write_next-id :
    (greeting buffer : List Message) (c : Client) → (write_next greeting buffer c).0.id ≡ c.id
unfolding write_next
write_next-id [] [] c = refl
write_next-id [] (msg ∷ rest) c = refl
write_next-id (g ∷ gs) buffer c = refl

pub write-id : (c : Client) → (write c).0.id ≡ c.id
unfolding write
write-id c = write_next-id c.greeting c.buffer c

pub remove-id : (c : Client) → (remove c).0.id ≡ c.id
unfolding remove
remove-id c = ground arith
