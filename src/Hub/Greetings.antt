-- ===== src/Hub/Greetings.antt =====
-- A greeting that comes behind too many broadcasts.
use media_share.Prelude.{
  ◌+◌, ◌≤◌, ◌<◌, ◌≡◌, refl, true, false, List, [], ◌∷◌, ◌++◌, Text, same_iff, length, length-append,
  arith, inl, inr, Bool-cases,
}
use media_share.Tenant.{Message}
use media_share.Hub.{Client, greet_next, dropped, greet, has_room, offer}

-- Several broadcasts to one room, as one of its clients meets them.
pub offers : Text → List Message → Client → Client
offers room [] c = c
offers room (msg ∷ msgs) c = offers room msgs (offer room msg c)

offers-unregistered :
    (room : Text) (msgs : List Message) (c : Client) → c.registered ≡ false → offers room msgs c ≡ c
unfolding offers offer
offers-unregistered room [] c e = refl
offers-unregistered room (msg ∷ msgs) c e = ground (arith, offers-unregistered room msgs c e)

offers-greeting :
    (room : Text) (msgs : List Message) (c : Client) → (offers room msgs c).greeting ≡ c.greeting
unfolding offers offer
offers-greeting room [] c = refl
offers-greeting room (msg ∷ msgs) c = ground (arith, offers-greeting room msgs (offer room msg c))

offers-closed :
    (room : Text) (msgs : List Message) (c : Client)
    → c.registered ≡ true
    → c.room ≡ room
    → 16 < length c.buffer + length msgs
    → length c.buffer ≤ 16
    → (offers room msgs c).closed ≡ true
unfolding offers offer
offers-closed room [] c e r full b = ground arith
offers-closed room (msg ∷ msgs) c e r full b = elim (Bool-cases (has_room c)) [
  | inl fits ↦
      let c' : Client = record c { buffer = c.buffer ++ msg ∷ [] } in
      ground
        (arith, offers-closed room msgs c', length-append c.buffer (msg ∷ []), same_iff c.room room)
  | inr over ↦ ground (arith, offers-unregistered room msgs (dropped c), same_iff c.room room)
]

-- A client with an empty channel whose greeting is still to be sent is dropped by seventeen broadcasts to
-- its room, and the greeting then sends on a closed channel: it panics.
pub greet-overrun :
    (c : Client) (msgs : List Message) (g : Message) (gs : List Message)
    → c.registered ≡ true
    → c.buffer ≡ []
    → 16 < length msgs
    → c.greeting ≡ g ∷ gs
    → (greet (offers c.room msgs c)).1 ≡ true
unfolding greet greet_next
greet-overrun c msgs g gs reg empty many waiting =
    ground (arith, offers-greeting c.room msgs c, offers-closed c.room msgs c)
