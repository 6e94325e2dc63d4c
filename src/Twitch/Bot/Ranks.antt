-- ===== src/Twitch/Bot/Ranks.antt =====
-- Whose lines steer the queue, and what they can do.
use media_share.Prelude.{
  ◌≡◌, refl, inl, inr, Bool, true, false, ◌||◌, Option, none, some, List, [], ◌∷◌, Text, arith,
  Option-cases, ◌⊎◌,
}
use media_share.Strings.{to_lower, trim_space, fields}
use media_share.Queue.{Manager}
use media_share.Queue.Ops.{Op, step}
use media_share.Twitch.Parse.{Privmsg, parse_privmsg}
use media_share.Twitch.Bot.{handle_line, wants_all}
use media_share.Twitch.Bot.Orders.{handle_line-Obeys, may_order, order, order_in, order_of, orders}

-- The methods that the chat can reach.
abbrev pub is_chat : Op → Bool
is_chat Op.skip = true
is_chat (Op.set_paused p) = true
is_chat (Op.clear all) = true
is_chat _ = false

order-is_chat : (cmd : Text) (all : Bool) (op : Op) → order cmd all ≡ some op → is_chat op ≡ true
unfolding order
order-is_chat cmd all op h = ground arith

order_in-is_chat : (words : List Text) (op : Op) → order_in words ≡ some op → is_chat op ≡ true
unfolding order_in
order_in-is_chat [] op h = cc
order_in-is_chat (cmd ∷ args) op h = order-is_chat (to_lower cmd) (wants_all args) op h

order_of-ranked :
    (msg : Option Privmsg) (op : Op)
    → order_of msg ≡ some op
    → (is_chat op ≡ true) × (p : Privmsg) × (msg ≡ some p) × ((p.is_mod || p.is_broadcaster) ≡ true)
unfolding order_of may_order
order_of-ranked none op h = cc
order_of-ranked (some p) op h =
    (ground (arith, order_in-is_chat (fields (trim_space p.text)) op), p, refl, ground arith)

-- Only a message of a moderator or of the broadcaster orders anything, and all that it can order is to
-- skip, to pause, to resume and to clear.
orders-ranked :
    (line : Text) (op : Op)
    → orders line ≡ some op
    → (is_chat op ≡ true)
      × (p : Privmsg) × (parse_privmsg line ≡ some p)
      × ((p.is_mod || p.is_broadcaster) ≡ true)
unfolding orders
orders-ranked line op h = order_of-ranked (parse_privmsg line) op (ground arith)

-- Whatever line comes from the chat, either it leaves the queue as it was and calls nobody, or it is a
-- message of a moderator or of the broadcaster, and does what one of the methods does that skip, pause,
-- resume and clear.
pub handle_line-ranked :
    (channel line : Text) (m : Manager)
    → (((handle_line channel line m).manager ≡ m)
        × ((handle_line channel line m).retired ≡ [])
        × ((handle_line channel line m).calls ≡ []))
      ⊎ ((op : Op) × (p : Privmsg) × (parse_privmsg line ≡ some p)
          × ((p.is_mod || p.is_broadcaster) ≡ true)
          × (is_chat op ≡ true)
          × ((handle_line channel line m).manager ≡ (step op m).manager)
          × ((handle_line channel line m).retired ≡ (step op m).retired)
          × ((handle_line channel line m).calls ≡ (step op m).calls))
handle_line-ranked channel line m =
    let did = handle_line-Obeys channel line m in
    elim (Option-cases (orders line)) [
      | inl quiet ↦ inl (
        ground (arith, did.manager, quiet),
        ground (arith, did.retired, quiet),
        ground (arith, did.calls, quiet),
      )
      | inr (op, asked) ↦
          let (chat, p, read, ranked) = orders-ranked line op asked in
          inr (
            op,
            p,
            read,
            ranked,
            chat,
            ground (arith, did.manager, asked),
            ground (arith, did.retired, asked),
            ground (arith, did.calls, asked),
          )
    ]
