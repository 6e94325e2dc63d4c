-- ===== src/Hub.antt =====
-- internal/hub/hub.go: the clients of the rooms and their channels. A client keeps its place in the list
-- when it leaves the hub, since its pumps and its channel live on. The steps of the goroutines interleave
-- as they come: a registration, one message of the greeting, one message written, a broadcast, an end.
pub mod Laws
mod Tests
pub mod Greetings
pub mod Ids
pub mod Unordered
use media_share.Prelude.{
  ℕ, Bool, true, false, ◌&&◌, ◌||◌, List, [], ◌∷◌, ◌++◌, Text, same, ◌==◌, ltb, length,
  if◌then◌else◌,
}
use media_share.Tenant.{Message}

-- `make(chan []byte, 16)`
abbrev pub capacity : ℕ
capacity = 16

-- `registered` is membership in `Hub.clients`, `buffer` and `closed` are the channel `send`, `greeting` is
-- what ServeWS has yet to send before it starts the pumps.
pub record Client : Type 0 where
  pub id : ℕ
  pub room : Text
  pub registered : Bool
  pub buffer : List Message
  pub closed : Bool
  pub greeting : List Message

-- `panicked` says that a goroutine sent on a closed channel or closed a channel twice.
pub record Hub : Type 0 where
  pub clients : List Client
  pub panicked : Bool

unfoldable pub new_hub : Hub
new_hub = record { clients = []; panicked = false }

abbrev pub has_room : Client → Bool
has_room c = ltb (length c.buffer) capacity

-- `close(c.send)` and `delete(h.clients, c)`
abbrev pub dropped : Client → Client
dropped c = record c { registered = false; closed = true }

-- What a broadcast does to one client.
unfoldable pub offer : Text → Message → Client → Client
offer room msg c =
    if c.registered && same c.room room
    then if has_room c then record c { buffer = c.buffer ++ msg ∷ [] } else dropped c
    else c

unfoldable pub offer_all : Text → Message → List Client → List Client
offer_all room msg [] = []
offer_all room msg (c ∷ cs) = offer room msg c ∷ offer_all room msg cs

-- A send on a closed channel panics, and so does the second close of a channel.
abbrev pub is_overdrawn : Text → Message → Client → Bool
is_overdrawn room msg c = c.registered && same c.room room && c.closed

unfoldable pub any_overdrawn : Text → Message → List Client → Bool
any_overdrawn room msg [] = false
any_overdrawn room msg (c ∷ cs) =
    let rest = any_overdrawn room msg cs in if is_overdrawn room msg c then true else rest

-- In the code a send on a closed channel ends the walk, with the lock held; here the walk goes on, and
-- `panicked` notes it.
unfoldable pub broadcast_to : Text → Message → Hub → Hub
broadcast_to room msg h = record {
  clients = offer_all room msg h.clients;
  panicked = h.panicked || any_overdrawn room msg h.clients;
}

-- ServeWS up to the end of the registration; `greeting` is what OnConnect returns.
unfoldable pub register : ℕ → Text → List Message → Hub → Hub
register id room greeting h = record h {
  clients =
      record {
        id = id;
        room = room;
        registered = true;
        buffer = [];
        closed = false;
        greeting = greeting;
      }
      ∷ h.clients;
}

-- One client's step, and whether it panics.
unfoldable pub at_client : ℕ → (Client → Client × Bool) → List Client → List Client × Bool
at_client id act [] = ([], false)
at_client id act (c ∷ cs) =
    let (rest, failed) = at_client id act cs in
    let (c', failed') = act c in if c.id == id then (c' ∷ cs, failed') else (c ∷ rest, failed)

greet_next : List Message → Client → Client × Bool
greet_next [] c = (c, false)
greet_next (msg ∷ rest) c =
    if c.closed
    then (c, true)
    else if has_room c
    then (record c { buffer = c.buffer ++ msg ∷ []; greeting = rest }, false)
    else (c, false)

-- `c.send <- data` of ServeWS; with a full channel the goroutine waits.
unfoldable pub greet : Client → Client × Bool
unfolding greet_next
greet c = greet_next c.greeting c

write_next : List Message → List Message → Client → Client × Bool
write_next [] (msg ∷ rest) c = (record c { buffer = rest }, false)
write_next [] [] c = (c, false)
write_next (_ ∷ _) buffer c = (c, false)

-- One message that writePump takes from the channel; it runs once the greeting is sent.
unfoldable pub write : Client → Client × Bool
unfolding write_next
write c = write_next c.greeting c.buffer c

unfoldable pub remove : Client → Client × Bool
remove c = if c.registered then (dropped c, c.closed) else (c, false)

unfoldable pub on_client : ℕ → (Client → Client × Bool) → Hub → Hub
on_client id act h =
    let (cs, failed) = at_client id act h.clients in
    record { clients = cs; panicked = h.panicked || failed }

pub data Step : Type 0 where
  broadcast : Text → Message → Step
  connect : ℕ → Text → List Message → Step
  greeting written ended : ℕ → Step

unfoldable pub step : Step → Hub → Hub
step (broadcast room msg) h = broadcast_to room msg h
step (connect id room msgs) h = register id room msgs h
step (greeting id) h = on_client id greet h
step (written id) h = on_client id write h
step (ended id) h = on_client id remove h

unfoldable pub run : List Step → Hub → Hub
run [] h = h
run (x ∷ xs) h = run xs (step x h)
