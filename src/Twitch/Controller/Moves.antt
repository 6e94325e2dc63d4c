-- ===== src/Twitch/Controller/Moves.antt =====
-- What happens under one lock of the controller or of the token store, as the moves of goroutines that
-- interleave: each function is a sequence of these.
use media_share.Prelude.{
  ℕ, ◌≡◌, refl, Bool, true, false, Option, none, some, List, [], ◌∷◌, Text, codes, ◌++◌, arith,
  Bool-cases, inl, inr, if◌then◌else◌,
}
use media_share.Prelude.Int.{ℤ}
use media_share.Oauth.{Answer, right, wrong, Http}
use media_share.Twitch.Oauth.{Token, Decoder, exchange_code, refresh}
use media_share.Twitch.Files.{Codec, Progress, get}
use media_share.Twitch.Controller
use media_share.Twitch.Controller.{
  System, start_bot, save_token, clear_token, broadcast_status, set_error, cancelled, started,
  start_token, exchanged, named, kept, refreshed, provide, needs_refresh,
}

pub data Move : Type 0 where
  set_root : Move
  install adopt : Token → Move
  launch drop report : Move
  fail : Text → Move
  save : Progress → Token → Move
  clear_file : Bool → Move

unfoldable pub step : Codec → Move → System → System
step codec Move.set_root s = record s { controller = record s.controller { root = true } }
step codec (Move.install t) s = record s { controller = record s.controller { token = some t } }
step codec (Move.adopt t) s = Controller.adopt t s
step codec Move.launch s = start_bot s
step codec Move.drop s = Controller.drop s
step codec Move.report s = broadcast_status s
step codec (Move.fail e) s = record s { controller = record s.controller { last_err = e } }
step codec (Move.save p t) s = (save_token codec p t s).1
step codec (Move.clear_file removable) s = clear_token removable s

unfoldable pub run : Codec → List Move → System → System
run codec [] s = s
run codec (m ∷ ms) s = run codec ms (step codec m s)

-- The bots that are not cancelled are the controller's one, if it has one.
pub record IsSingle (s : System) : Type 0 where
  pub one : s.live ≡ elim s.controller.bot [ none ↦ [] | some n ↦ n ∷ [] ]

cancelled-one :
    (bot : Option ℕ) (live : List ℕ)
    → live ≡ elim bot [ none ↦ [] | some n ↦ n ∷ [] ]
    → cancelled bot live ≡ []
unfolding cancelled
cancelled-one none live h = h
cancelled-one (some n) live h = rw h ((ground arith))

pub drop-live : (s : System) → IsSingle s → (Controller.drop s).live ≡ []
unfolding Controller.drop
drop-live s h = cancelled-one s.controller.bot s.live h.one

either-IsSingle :
    (b : Bool) {s t : System} → IsSingle s → IsSingle t → IsSingle (if b then s else t)
either-IsSingle true h k = h
either-IsSingle false h k = k

step-IsSingle : (codec : Codec) (m : Move) (s : System) → IsSingle s → IsSingle (step codec m s)
unfolding step
step-IsSingle codec Move.set_root s h = record { one = h.one }
step-IsSingle codec (Move.install t) s h = record { one = h.one }
step-IsSingle codec (Move.adopt t) s h = unfold Controller.adopt in record { one = h.one }
step-IsSingle codec Move.launch s h =
    unfold start_bot in
    either-IsSingle s.controller.root
      (record { one = rw (cancelled-one s.controller.bot s.live h.one) refl }) h
step-IsSingle codec Move.drop s h =
    unfold Controller.drop in record { one = cancelled-one s.controller.bot s.live h.one }
step-IsSingle codec Move.report s h =
    unfold broadcast_status in either-IsSingle s.controller.broadcasting (record { one = h.one }) h
step-IsSingle codec (Move.fail e) s h = record { one = h.one }
step-IsSingle codec (Move.save p t) s h = unfold save_token in record { one = h.one }
step-IsSingle codec (Move.clear_file b) s h = unfold clear_token in record { one = h.one }

-- However the moves of the controller's goroutines interleave: where the bots whose context is not cancelled
-- are the controller's one, if it has one, this stays so, and so there is at most one of them.
pub run-IsSingle :
    (codec : Codec) (ms : List Move) (s : System) → IsSingle s → IsSingle (run codec ms s)
unfolding run
run-IsSingle codec [] s h = h
run-IsSingle codec (m ∷ ms) s h = run-IsSingle codec ms (step codec m s) (step-IsSingle codec m s h)

-- The functions, as calls.
pub data Call : Type 0 where
  start : Bool → Option Token → Call
  connect : Http → Decoder → ℤ → Progress → Text → Text → Text → Call
  disconnect : Bool → Call
  credentials : Http → Decoder → ℤ → Progress → Call

unfoldable pub perform : Codec → Call → System → System
perform codec (Call.start readable legacy) s = Controller.start codec readable legacy s
perform codec (Call.connect http decoder now p e code channel) s =
    (Controller.connect http decoder codec now p e code channel s).1
perform codec (Call.disconnect removable) s = Controller.disconnect removable s
perform codec (Call.credentials http decoder now p) s =
    (Controller.credentials http decoder codec now p s).1

-- The moves of a call that nobody interrupts.
abbrev MadeOf : Codec → System → System → Type 0
MadeOf codec s s' = (ms : List Move) × (s' ≡ run codec ms s)

error-MadeOf : (codec : Codec) (e : Text) (s : System) → MadeOf codec s (set_error e s)
unfolding run step set_error
error-MadeOf codec e s = (Move.fail e ∷ Move.report ∷ [], refl)

started-MadeOf :
    (codec : Codec) (t : Option Token) (s : System)
    → MadeOf codec s (started t (record s { controller = record s.controller { root = true } }))
unfolding run step started
started-MadeOf codec none s = (Move.set_root ∷ Move.report ∷ [], refl)
started-MadeOf codec (some t) s =
    (Move.set_root ∷ Move.install t ∷ Move.launch ∷ Move.report ∷ [], refl)

kept-MadeOf :
    (codec : Codec) (e : Text) (t : Token) (r : Bool × System) → MadeOf codec r.1 (kept e t r).1
unfolding run step kept
kept-MadeOf codec e t (true, s) = (Move.adopt t ∷ Move.launch ∷ Move.report ∷ [], refl)
kept-MadeOf codec e t (false, s) = error-MadeOf codec (codes "could not save token: " ++ e) s

exchanged-MadeOf :
    (codec : Codec) (p : Progress) (e channel : Text) (a : Answer Token) (s : System)
    → MadeOf codec s (exchanged codec p e channel a s).1
unfolding run step exchanged
exchanged-MadeOf codec p e channel (wrong error) s = error-MadeOf codec error s
exchanged-MadeOf codec p e channel (right t) s =
    let (ms, same) =
      kept-MadeOf codec e (named channel t) (save_token codec p (named channel t) s) in
    (Move.save p (named channel t) ∷ ms, same)

refreshed-MadeOf :
    (codec : Codec) (p : Progress) (a : Answer Token) (s : System)
    → MadeOf codec s (refreshed codec p a s).1
unfolding run step refreshed
refreshed-MadeOf codec p (wrong e) s = error-MadeOf codec (codes "token refresh failed: " ++ e) s
refreshed-MadeOf codec p (right t) s = (Move.save p t ∷ Move.adopt t ∷ [], refl)

provide-MadeOf :
    (http : Http) (decoder : Decoder) (codec : Codec) (now : ℤ) (p : Progress) (t : Option Token)
    (s : System)
    → MadeOf codec s (provide http decoder codec now p t s).1
unfolding run provide
provide-MadeOf http decoder codec now p none s = ([], refl)
provide-MadeOf http decoder codec now p (some t) s = elim (Bool-cases (needs_refresh now t)) [
  | inl old ↦
      let (ms, same) =
        refreshed-MadeOf codec p (refresh http decoder s.controller.client now t) s in
      (ms, rw old same)
  | inr fresh ↦ ([], rw fresh)
]

-- Each function of the controller that changes it is a sequence of moves.
perform-MadeOf :
    (codec : Codec) (c : Call) (s : System)
    → (ms : List Move) × (perform codec c s ≡ run codec ms s)
unfolding perform
perform-MadeOf codec (Call.start readable legacy) s =
    unfold Controller.start in
    started-MadeOf codec (start_token (get codec readable s.directory) legacy) s
perform-MadeOf codec (Call.connect http decoder now p e code channel) s =
    unfold Controller.connect in
    exchanged-MadeOf codec p e channel (exchange_code http decoder s.controller.client now code) s
perform-MadeOf codec (Call.disconnect removable) s =
    unfold Controller.disconnect run step in
    (Move.drop ∷ Move.clear_file removable ∷ Move.report ∷ [], refl)
perform-MadeOf codec (Call.credentials http decoder now p) s =
    unfold Controller.credentials in provide-MadeOf http decoder codec now p s.controller.token s

-- So the calls too keep at most one bot in the chat.
perform-IsSingle :
    (codec : Codec) (c : Call) (s : System) → IsSingle s → IsSingle (perform codec c s)
perform-IsSingle codec c s h =
    let (ms, same) = perform-MadeOf codec c s in rw same (run-IsSingle codec ms s h)
