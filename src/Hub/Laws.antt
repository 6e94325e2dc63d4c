-- ===== src/Hub/Laws.antt =====
-- The channels of the clients at every step.
use media_share.Prelude.{
  ℕ, ◌≤◌, ◌≡◌, refl, Bool, true, false, not, List, [], ◌∷◌, Text, same, length, length-append, All,
  ◌==◌, arith, inl, inr, Bool-cases, if◌then◌else◌,
}
use media_share.Tenant.{Message}
use media_share.Hub.{
  Client, Hub, Step, at_client, any_overdrawn, broadcast_to, greet_next, write_next, greet, new_hub,
  offer, offer_all, on_client, register, remove, run, step, write,
}

-- A client's channel holds at most sixteen messages and is open exactly while the client is registered.
pub record IsSane (c : Client) : Type 0 where
  pub bounded : length c.buffer ≤ 16
  pub open_while : c.closed ≡ not c.registered

abbrev pub AllSane : Hub → Type 0
AllSane h = All IsSane h.clients

offer-IsSane : (room : Text) (msg : Message) (c : Client) → IsSane c → IsSane (offer room msg c)
unfolding offer
offer-IsSane room msg c s = record {
  bounded = ground (arith, s.bounded, length-append c.buffer (msg ∷ []));
  open_while = ground (arith, s.open_while);
}

offer_all-IsSane :
    (room : Text) (msg : Message) (cs : List Client)
    → All IsSane cs
    → All IsSane (offer_all room msg cs)
unfolding offer_all
offer_all-IsSane room msg [] s = tt
offer_all-IsSane room msg (c ∷ cs) s =
    (offer-IsSane room msg c s.0, offer_all-IsSane room msg cs s.1)

-- No broadcast sends on a closed channel or closes one twice.
any_overdrawn-IsSane :
    (room : Text) (msg : Message) (cs : List Client)
    → All IsSane cs
    → any_overdrawn room msg cs ≡ false
unfolding any_overdrawn
any_overdrawn-IsSane room msg [] s = refl
any_overdrawn-IsSane room msg (c ∷ cs) s =
    ground (arith, s.0.open_while, any_overdrawn-IsSane room msg cs s.1)

greet_next-IsSane : (msgs : List Message) (c : Client) → IsSane c → IsSane (greet_next msgs c).0
unfolding greet_next
greet_next-IsSane [] c s = s
greet_next-IsSane (msg ∷ rest) c s = record {
  bounded = ground (arith, s.bounded, length-append c.buffer (msg ∷ []));
  open_while = ground (arith, s.open_while);
}

write_next-IsSane :
    (msgs buffer : List Message) (c : Client)
    → c.buffer ≡ buffer
    → IsSane c
    → IsSane (write_next msgs buffer c).0
unfolding write_next
write_next-IsSane [] (msg ∷ rest) c e s = record {
  bounded = ground (arith, s.bounded);
  open_while = s.open_while;
}
write_next-IsSane [] [] c e s = s
write_next-IsSane (m ∷ ms) buffer c e s = s

remove-IsSane : (c : Client) → IsSane c → IsSane (remove c).0
unfolding remove
remove-IsSane c s = record {
  bounded = ground (arith, s.bounded);
  open_while = ground (arith, s.open_while);
}

at_client-IsSane :
    (id : ℕ) (act : Client → Client × Bool) (cs : List Client)
    → ((c : Client) → IsSane c → IsSane (act c).0)
    → All IsSane cs
    → All IsSane (at_client id act cs).0
unfolding at_client
at_client-IsSane id act [] keeps s = tt
at_client-IsSane id act (c ∷ cs) keeps s = elim (Bool-cases (c.id == id)) [
  | inl here ↦ rw here (keeps c s.0, s.1)
  | inr other ↦ rw other (s.0, at_client-IsSane id act cs keeps s.1)
]

step-AllSane : (x : Step) (h : Hub) → AllSane h → AllSane (step x h)
unfolding step broadcast_to register on_client greet write
step-AllSane (Step.broadcast room msg) h s = offer_all-IsSane room msg h.clients s
step-AllSane (Step.connect id room msgs) h s =
    (record { bounded = omega arith; open_while = refl }, s)
step-AllSane (Step.greeting id) h s =
    at_client-IsSane id greet h.clients (λ c. greet_next-IsSane c.greeting c) s
step-AllSane (Step.written id) h s =
    at_client-IsSane id write h.clients (λ c. write_next-IsSane c.greeting c.buffer c refl) s
step-AllSane (Step.ended id) h s = at_client-IsSane id remove h.clients remove-IsSane s

run-AllSane_from : (xs : List Step) (h : Hub) → AllSane h → AllSane (run xs h)
unfolding run
run-AllSane_from [] h s = s
run-AllSane_from (x ∷ xs) h s = run-AllSane_from xs (step x h) (step-AllSane x h s)

-- However the steps interleave on a new hub, no channel holds more than sixteen messages, and a channel
-- is open exactly while its client is registered.
pub run-AllSane : (xs : List Step) → AllSane (run xs new_hub)
run-AllSane xs = run-AllSane_from xs new_hub (unfold new_hub in tt)

at_client-calm :
    (id : ℕ) (act : Client → Client × Bool) (cs : List Client)
    → ((c : Client) → IsSane c → (act c).1 ≡ false)
    → All IsSane cs
    → (at_client id act cs).1 ≡ false
unfolding at_client
at_client-calm id act [] quiet s = refl
at_client-calm id act (c ∷ cs) quiet s =
    ground (arith, quiet c s.0, at_client-calm id act cs quiet s.1)

write_next-calm : (msgs buffer : List Message) (c : Client) → (write_next msgs buffer c).1 ≡ false
unfolding write_next
write_next-calm [] [] c = refl
write_next-calm [] (m ∷ ms) c = refl
write_next-calm (m ∷ ms) buffer c = refl

remove-calm : (c : Client) → IsSane c → (remove c).1 ≡ false
unfolding remove
remove-calm c s = ground (arith, s.open_while)

abbrev pub greets : Step → Bool
greets (Step.greeting id) = true
greets _ = false

-- Where each channel is open exactly while its client is registered, no broadcast, registration, write or
-- end of a client panics: only a greeting can.
step-calm :
    (x : Step) (h : Hub)
    → AllSane h
    → h.panicked ≡ false
    → greets x ≡ false
    → (step x h).panicked ≡ false
unfolding step broadcast_to register on_client write
step-calm (Step.broadcast room msg) h s p g =
    ground (arith, any_overdrawn-IsSane room msg h.clients s)
step-calm (Step.connect id room msgs) h s p g = p
step-calm (Step.greeting id) h s p g = ground arith
step-calm (Step.written id) h s p g =
    ground
      (arith, at_client-calm id write h.clients (λ c t. write_next-calm c.greeting c.buffer c) s)
step-calm (Step.ended id) h s p g = ground (arith, at_client-calm id remove h.clients remove-calm s)

-- The clients of the other rooms.
abbrev pub outside : Text → List Client → List Client
outside room [] = []
outside room (c ∷ cs) = let rest = outside room cs in if same c.room room then rest else c ∷ rest

offer_all-outside :
    (room : Text) (msg : Message) (cs : List Client)
    → outside room (offer_all room msg cs) ≡ outside room cs
unfolding offer_all offer
offer_all-outside room msg [] = refl
offer_all-outside room msg (c ∷ cs) = ground (arith, offer_all-outside room msg cs)

-- A broadcast to a room leaves the clients of all other rooms, and their channels, as they were.
broadcast_to-outside :
    (room : Text) (msg : Message) (h : Hub)
    → outside room (broadcast_to room msg h).clients ≡ outside room h.clients
unfolding broadcast_to
broadcast_to-outside room msg h = offer_all-outside room msg h.clients
