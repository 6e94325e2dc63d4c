-- ===== src/Twitch/Bot/Orders.antt =====
-- What a line of the chat makes the queue do.
use media_share.Prelude.{
  ◌≡◌, ◌≢◌, refl, ap, inl, inr, Bool, true, false, ◌||◌, Option, none, some, List, [], ◌∷◌, Text,
  codes, arith, Bool-cases, if◌then◌else◌,
}
use media_share.Strings.{has_prefix, to_lower, trim_space, fields, is_space}
use media_share.Strings.Cuts.{fields-cons}
use media_share.Queue
use media_share.Queue.{Manager, Outcome, unchanged}
use media_share.Queue.Ops.{Op, step}
use media_share.Twitch.Parse.{Privmsg, parse_privmsg}
use media_share.Twitch.Bot.{
  handle_line, handle_message, with_fields, dispatch, saying, wants_all, one_of,
}

-- The method that a command is for.
unfoldable pub order : Text → Bool → Option Op
unfolding one_of
order cmd all =
    if one_of cmd (codes "!skip" ∷ codes "!next" ∷ [])
    then some Op.skip
    else if one_of cmd (codes "!pause" ∷ [])
    then some (Op.set_paused true)
    else if one_of cmd (codes "!resume" ∷ codes "!play" ∷ codes "!unpause" ∷ [])
    then some (Op.set_paused false)
    else if one_of cmd (codes "!clear" ∷ [])
    then some (Op.clear all)
    else none

unfoldable pub order_in : List Text → Option Op
unfolding order wants_all
order_in [] = none
order_in (cmd ∷ args) = order (to_lower cmd) (wants_all args)

unfoldable pub may_order : Privmsg → Bool
may_order msg = msg.is_mod || msg.is_broadcaster

unfoldable pub order_of : Option Privmsg → Option Op
unfolding may_order order_in
order_of none = none
order_of (some msg) =
    if may_order msg
    then (if has_prefix (trim_space msg.text) (codes "!")
        then order_in (fields (trim_space msg.text))
        else none)
    else none

-- The method that a line orders, if any.
unfoldable pub orders : Text → Option Op
unfolding order_of
orders line = if has_prefix line (codes "PING") then none else order_of (parse_privmsg line)

-- The line did to the queue what the order says, without a panic.
pub record Obeys (o : Option Op) (m : Manager) (out : Outcome (Option (List Text))) : Type 0 where
  pub manager : out.manager ≡ elim o [ none ↦ m | some op ↦ (step op m).manager ]
  pub retired : out.retired ≡ elim o [ none ↦ [] | some op ↦ (step op m).retired ]
  pub calls : out.calls ≡ elim o [ none ↦ [] | some op ↦ (step op m).calls ]
  pub runs : out.result ≢ none

saying-Obeys :
    (op : Op) (m : Manager) (channel text : Text) (o : Outcome (Unit {0}))
    → o ≡ step op m
    → Obeys (some op) m (saying channel text o)
unfolding saying
saying-Obeys op m channel text o e = record {
  manager = ap (λ (x : Outcome (Unit {0})). x.manager) e;
  retired = ap (λ (x : Outcome (Unit {0})). x.retired) e;
  calls = ap (λ (x : Outcome (Unit {0})). x.calls) e;
  runs = λ panics. cc;
}

quiet-Obeys : (m : Manager) (texts : List Text) → Obeys none m (unchanged m (some texts))
quiet-Obeys m texts = record { manager = refl; retired = refl; calls = refl; runs = λ panics. cc }

dispatch-Obeys :
    (channel cmd : Text) (args : List Text) (m : Manager)
    → Obeys (order cmd (wants_all args)) m (dispatch channel cmd args m)
unfolding dispatch order
dispatch-Obeys channel cmd args m =
    let all = wants_all args in
    elim (Bool-cases (one_of cmd (codes "!skip" ∷ codes "!next" ∷ []))) [
      | inl skips ↦
          rw skips (
            saying-Obeys Op.skip m channel (codes "⏭ Skipped.") (Queue.skip m)
              (unfold step in refl))
      | inr a ↦ elim (Bool-cases (one_of cmd (codes "!pause" ∷ []))) [
        | inl pauses ↦
            rw (a, pauses)
              (saying-Obeys (Op.set_paused true) m channel (codes "⏸ Paused.") (Queue.pause m)
                (unfold step Queue.pause in refl))
        | inr b ↦
            elim (Bool-cases
              (one_of cmd (codes "!resume" ∷ codes "!play" ∷ codes "!unpause" ∷ []))) [
                | inl resumes ↦
                    rw (a, b, resumes)
                      (saying-Obeys (Op.set_paused false) m channel (codes "▶ Resumed.")
                        (Queue.resume m) (unfold step Queue.resume in refl))
                | inr c ↦ elim (Bool-cases (one_of cmd (codes "!clear" ∷ []))) [
                  | inl clears ↦
                      rw (a, b, c, clears)
                        (saying-Obeys (Op.clear all) m channel
                          (if all
                            then codes "🗑 Cleared everything."
                            else codes "🧹 Cleared the queue.")
                          (Queue.clear all m) (unfold step in refl))
                  | inr d ↦
                      elim (Bool-cases
                        (one_of cmd (codes "!current" ∷ codes "!nowplaying" ∷ codes "!np" ∷ []))) [
                          | inl asks ↦ rw (a, b, c, d, asks) (quiet-Obeys m _)
                          | inr e ↦ rw (a, b, c, d, e) (quiet-Obeys m _)
                        ]
                ]
              ]
      ]
    ]

-- A text that begins with the mark of the commands has a field.
fields-commanded :
    (text : Text)
    → has_prefix text (codes "!") ≡ true
    → (cmd : Text) × (args : List Text) × (fields text ≡ cmd ∷ args)
unfolding has_prefix
fields-commanded [] h = cc
fields-commanded (c ∷ s) h =
    let e : c ≡ b'!' = ground arith in
    let (w, ws, q) = fields-cons c s (rw e (unfold is_space in refl)) in (c ∷ w, ws, q)

message-Obeys :
    (channel : Text) (msg : Privmsg) (m : Manager)
    → Obeys (order_of (some msg)) m (handle_message channel (some msg) m)
unfolding handle_message order_of with_fields order_in may_order
message-Obeys channel msg m = elim (Bool-cases (has_prefix (trim_space msg.text) (codes "!"))) [
  | inr plain ↦ elim (Bool-cases (msg.is_mod || msg.is_broadcaster)) [
    | inl ranked ↦ rw (plain, ranked) (quiet-Obeys m [])
    | inr unranked ↦ rw (plain, unranked) (quiet-Obeys m [])
  ]
  | inl command ↦
      let (cmd, args, split) = fields-commanded (trim_space msg.text) command in
      elim (Bool-cases (msg.is_mod || msg.is_broadcaster)) [
        | inl ranked ↦ rw (command, ranked, split) (dispatch-Obeys channel (to_lower cmd) args m)
        | inr unranked ↦ rw (command, unranked, split) (quiet-Obeys m [])
      ]
]

read-Obeys :
    (channel : Text) (msg : Option Privmsg) (m : Manager)
    → Obeys (order_of msg) m (handle_message channel msg m)
unfolding handle_message order_of
read-Obeys channel none m = quiet-Obeys m []
read-Obeys channel (some msg) m = message-Obeys channel msg m

-- Every line of the chat does to the queue exactly what its order says, with the snapshots that the
-- method sends, and no line panics: a line without an order changes, retires and calls nothing.
pub handle_line-Obeys :
    (channel line : Text) (m : Manager) → Obeys (orders line) m (handle_line channel line m)
unfolding handle_line orders
handle_line-Obeys channel line m = elim (Bool-cases (has_prefix line (codes "PING"))) [
  | inl ping ↦ rw ping (quiet-Obeys m _)
  | inr other ↦ rw other (read-Obeys channel (parse_privmsg line) m)
]
