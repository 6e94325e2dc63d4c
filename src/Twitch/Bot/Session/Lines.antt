-- ===== src/Twitch/Bot/Session/Lines.antt =====
-- What the lines of a message do to the queue.
use media_share.Prelude.{
  ◌≡◌, ◌≢◌, refl, sym, ap, subst, ◌∙◌, true, false, Option, none, some, List, [], ◌∷◌, ◌++◌, Text,
  Bool-cases, inl, inr, ◌⊎◌, if◌then◌else◌,
}
use media_share.Strings.{contains, has_prefix}
use media_share.Queue.{Manager, Outcome}
use media_share.Queue.Ops.{Op, run, step}
use media_share.Twitch.Parse.{parse_privmsg}
use media_share.Twitch.Bot.{handle_line}
use media_share.Twitch.Bot.Orders.{Obeys, orders, handle_line-Obeys}
use media_share.Twitch.Bot.Session.{
  Ended, panicked, Chat, heard, is_refusal, read_line, read_lines, hanging,
}

-- The orders of the lines in front of the first that refuses the login.
unfoldable pub ordered : List Text → List Op
unfolding is_refusal
ordered [] = []
ordered (line ∷ lines) =
    let rest = ordered lines in
    if is_refusal line then [] else elim (orders line) [ none ↦ rest | some op ↦ op ∷ rest ]

abbrev after : Option Op → Manager → Manager
after none m = m
after (some op) m = (step op m).manager

heard-after :
    (o : Option Op) (result : Option (List Text)) (out : Outcome (Option (List Text))) (chat : Chat)
    → result ≢ none
    → out.manager ≡ after o chat.manager
    → (c : Chat) × (heard result out chat ≡ (none, c)) × (c.manager ≡ after o chat.manager)
unfolding heard
heard-after o none out chat runs at = absurd (runs refl)
heard-after o (some texts) out chat runs at = (
  record {
    manager = out.manager;
    calls = chat.calls ++ out.calls;
    written = chat.written ++ texts;
  },
  refl,
  at,
)

obeyed-after :
    (o : Option Op) (m : Manager) (out : Outcome (Option (List Text)))
    → Obeys o m out
    → out.manager ≡ after o m
obeyed-after none m out h = h.manager
obeyed-after (some op) m out h = h.manager

-- A line refuses the login, or does what it orders.
read_line-cases :
    (channel line : Text) (chat : Chat)
    → ((is_refusal line ≡ true) × (read_line channel line chat ≡ (some Ended.auth_failed, chat)))
      ⊎ ((is_refusal line ≡ false)
          × (c : Chat) × (read_line channel line chat ≡ (none, c))
          × (c.manager ≡ after (orders line) chat.manager))
unfolding read_line
read_line-cases channel [] chat =
    inr (
      unfold is_refusal contains in refl,
      chat,
      refl,
      unfold orders parse_privmsg has_prefix in refl,
    )
read_line-cases channel (b ∷ line) chat = elim (Bool-cases (is_refusal (b ∷ line))) [
  | inl refused ↦ inl (refused, rw refused)
  | inr heard_it ↦
      let o = handle_line channel (b ∷ line) chat.manager in
      let h = handle_line-Obeys channel (b ∷ line) chat.manager in
      let (c, e, at) =
        heard-after (orders (b ∷ line)) o.result o chat h.runs
          (obeyed-after (orders (b ∷ line)) chat.manager o h) in
      inr (heard_it, c, rw heard_it e, at)
]

-- The lines that were read did what they order, and what follows is still to come unless one of them
-- ended the connection.
abbrev pub Read : Manager → List Text → Option Ended × Chat → Type 0
Read m lines (none, c) =
    (more : List Text) → run (ordered (lines ++ more)) m ≡ run (ordered more) c.manager
Read m lines (some e, c) =
    ((more : List Text) → run (ordered (lines ++ more)) m ≡ c.manager)
    × ((e ≢ panicked) × (e ≢ hanging))

ordered-after :
    (o : Option Op) (rest : List Op) (m : Manager)
    → run (elim o [ none ↦ rest | some op ↦ op ∷ rest ]) m ≡ run rest (after o m)
unfolding run
ordered-after none rest m = refl
ordered-after (some op) rest m = refl

Read-cons :
    (line : Text) (lines : List Text) (m m' : Manager) (r : Option Ended × Chat)
    → is_refusal line ≡ false
    → m' ≡ after (orders line) m
    → Read m' lines r
    → Read m (line ∷ lines) r
unfolding ordered
Read-cons line lines m m' (none, c) goes at h = λ more. rw goes (
    ordered-after (orders line) (ordered (lines ++ more)) m
    ∙ ap (run (ordered (lines ++ more))) (sym at)
    ∙ h more)
Read-cons line lines m m' (some e, c) goes at h = (
  λ more. rw goes (
      ordered-after (orders line) (ordered (lines ++ more)) m
      ∙ ap (run (ordered (lines ++ more))) (sym at)
      ∙ h.0 more),
  h.1,
)

-- What is left to show where the first line had the result `r`.
abbrev Stepped : Text → Text → List Text → Manager → Option Ended × Chat → Type 0
Stepped channel line lines m r =
    Read m (line ∷ lines)
      (elim r.0 [ none ↦ read_lines channel lines r.1 | some e ↦ (some e, r.1) ])

pub read_lines-Read :
    (channel : Text) (lines : List Text) (chat : Chat)
    → Read chat.manager lines (read_lines channel lines chat)
unfolding read_lines
read_lines-Read channel [] chat = λ more. refl
read_lines-Read channel (line ∷ lines) chat = elim (read_line-cases channel line chat) [
  | inl (refused, e) ↦
      subst (Stepped channel line lines chat.manager) (sym e)
        ((λ more. unfold ordered run in rw refused), (λ same. cc, λ same. cc))
  | inr (goes, c, e, at) ↦ subst (Stepped channel line lines chat.manager) (sym e) (
      Read-cons line lines chat.manager c.manager (read_lines channel lines c) goes at
        (read_lines-Read channel lines c))
]
