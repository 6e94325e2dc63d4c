-- ===== src/Auth/States.antt =====
-- The life of an OAuth state.
use media_share.Prelude.{
  ℕ, ◌+◌, ◌≡◌, refl, Option, none, some, [], ◌∷◌, Text, same, same_iff, same_refl, arith, inl, inr,
  Bool-cases, Option-cases, Assoc, lookup, insert, delete, lookup-insert, lookup-delete,
  if◌then◌else◌, ltb,
}
use media_share.Random.{Rng, rand_token}
use media_share.Auth.{
  Kind, StateEntry, state_ttl, prune, authorize, consume_state, consume_state_entry, consume_found,
  kind_or_owner, info_of,
}

-- Each state is a key once, as in a Go map.
abbrev pub UniqueKeys {ℓ} : {V : Type ℓ} → Assoc V → Type ℓ
UniqueKeys [] = Unit
UniqueKeys ((k, v) ∷ m) = (lookup k m ≡ none) × UniqueKeys m

abbrev live : ℕ → Option StateEntry → Option StateEntry
live now none = none
live now (some e) = if ltb e.expires now then none else some e

-- Pruning drops exactly the entries behind their end.
lookup-prune :
    (now : ℕ) (state : Text) (states : Assoc StateEntry)
    → UniqueKeys states
    → lookup state (prune now states) ≡ live now (lookup state states)
unfolding lookup prune
lookup-prune now state [] u = refl
lookup-prune now state ((k, e) ∷ states) u =
    ground (arith, lookup-prune now state states u.1, same_iff k state)

prune-UniqueKeys :
    (now : ℕ) (states : Assoc StateEntry) → UniqueKeys states → UniqueKeys (prune now states)
unfolding prune
prune-UniqueKeys now [] u = tt
prune-UniqueKeys now ((k, e) ∷ states) u = elim (Bool-cases (ltb e.expires now)) [
  | inl h ↦ rw h (prune-UniqueKeys now states u.1)
  | inr h ↦
      rw h (ground (arith, lookup-prune now k states u.1, u.0), prune-UniqueKeys now states u.1)
]

-- `consumeState` finds exactly the entry of the state that has not ended.
consume_state-lookup :
    (now : ℕ) (state : Text) (states : Assoc StateEntry)
    → UniqueKeys states
    → (consume_state now state states).0 ≡ info_of (live now (lookup state states))
unfolding consume_state consume_state_entry consume_found
consume_state-lookup now state states u = elim (Option-cases (lookup state (prune now states))) [
  | inl h ↦ ground (arith, lookup-prune now state states u)
  | inr (e, h) ↦ ground (arith, lookup-prune now state states u)
]

consume_state-removes :
    (now : ℕ) (state : Text) (states : Assoc StateEntry)
    → lookup state (consume_state now state states).1 ≡ none
unfolding consume_state consume_state_entry consume_found
consume_state-removes now state states = elim (Option-cases (lookup state (prune now states))) [
  | inl h ↦ ground arith
  | inr (e, h) ↦ ground (arith, lookup-delete state state (prune now states), same_refl state)
]

delete-UniqueKeys : {V : Type 0} (k : Text) (m : Assoc V) → UniqueKeys m → UniqueKeys (delete k m)
unfolding delete
delete-UniqueKeys k [] u = tt
delete-UniqueKeys k ((j, v) ∷ m) u = elim (Bool-cases (same j k)) [
  | inl h ↦ rw h (delete-UniqueKeys k m u.1)
  | inr h ↦ rw h (ground (arith, lookup-delete k j m, u.0), delete-UniqueKeys k m u.1)
]

insert-UniqueKeys :
    {V : Type 0} (k : Text) (v : V) (m : Assoc V) → UniqueKeys m → UniqueKeys (insert k v m)
unfolding insert
insert-UniqueKeys k v m u =
    (ground (arith, lookup-delete k k m, same_refl k), delete-UniqueKeys k m u)

consume_state-UniqueKeys :
    (now : ℕ) (state : Text) (states : Assoc StateEntry)
    → UniqueKeys states
    → UniqueKeys (consume_state now state states).1
unfolding consume_state consume_state_entry consume_found
consume_state-UniqueKeys now state states u =
    elim (Option-cases (lookup state (prune now states))) [
      | inl h ↦ rw h (prune-UniqueKeys now states u)
      | inr (e, h) ↦
          rw h (delete-UniqueKeys state (prune now states) (prune-UniqueKeys now states u))
    ]

-- A state that was consumed at one time is not accepted at any later one: an authorization works once.
pub consume_state_once :
    (now later : ℕ) (state : Text) (states : Assoc StateEntry)
    → UniqueKeys states
    → (consume_state later state (consume_state now state states).1).0 ≡ none
consume_state_once now later state states u = ground (
  arith,
  consume_state-lookup later state (consume_state now state states).1
      (consume_state-UniqueKeys now state states u),
  consume_state-removes now state states,
)

-- The state that `Authorize` returned gives back the kind of login and the return path that it was
-- made for, up to ten minutes later, and nothing behind that.
pub authorize-consume_state :
    (rng : Rng) (now later : ℕ) (kind : Kind) (return_to : Text) (states : Assoc StateEntry)
    → UniqueKeys states
    → (consume_state later
        (authorize rng now kind return_to states).0
        (authorize rng now kind return_to states).1).0
      ≡ (if ltb (now + state_ttl) later
          then none
          else some (record { kind = kind_or_owner kind; return_to = return_to }))
unfolding authorize
authorize-consume_state rng now later kind return_to states u =
    let state = rand_token 24 rng in
    let e : StateEntry = record { expires = now + state_ttl; kind = kind; return_to = return_to } in
    let kept = prune-UniqueKeys now states u in
    let unique : UniqueKeys (insert state e (prune now states)) =
      insert-UniqueKeys state e (prune now states) kept in
    ground (
      arith,
      consume_state-lookup later state (insert state e (prune now states)) unique,
      lookup-insert state state e (prune now states),
      same_refl state,
    )
