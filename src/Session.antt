-- ===== src/Session.antt =====
-- internal/session/session.go: one streamer's submission session. The broadcaster is known by the
-- room of the hub that it sends to; `none` is a nil broadcaster.
use media_share.Prelude.{
  ℕ, ◌≡◌, ◌↔◌, Bool, true, false, not, ◌||◌, Option, none, some, List, [], ◌∷◌, Text, same,
  is_empty, if◌then◌else◌, arith, same_iff,
}
use media_share.Random.{Rng, new_token}

pub record Status : Type 0 where
  pub active : Bool
  pub started_at : ℕ

pub record Manager : Type 0 where
  pub active : Bool
  pub token : Text
  pub started_at : ℕ
  pub broadcaster : Option Text

-- One call of `Broadcast("session", status)`.
pub record Notice : Type 0 where
  pub room : Text
  pub status : Status

pub record Outcome (A : Type 0) : Type 0 where
  pub manager : Manager
  pub result : A
  pub notices : List Notice

unfoldable pub new : Option Text → Manager
new b = record { active = false; token = []; started_at = 0; broadcaster = b }

unfoldable pub status : Manager → Status
status m = record { active = m.active; started_at = m.started_at }

send : Option Text → Status → List Notice
send none s = []
send (some room) s = record { room = room; status = s } ∷ []

unfoldable pub broadcast : Manager → List Notice
unfolding send status
broadcast m = send m.broadcaster (status m)

announce : {A : Type 0} → Manager → A → Outcome A
unfolding broadcast
announce m a = record { manager = m; result = a; notices = broadcast m }

-- `now` is the time of the call.
unfoldable pub start : Rng → ℕ → Manager → Outcome Text
unfolding announce
start rng now m =
    announce (record m { active = true; token = new_token rng; started_at = now }) (new_token rng)

unfoldable pub regenerate : Rng → ℕ → Manager → Outcome Text
unfolding announce
regenerate rng now m =
    announce
      (record m {
        active = true;
        token = new_token rng;
        started_at = if m.active then m.started_at else now;
      })
      (new_token rng)

unfoldable pub stop : Manager → Outcome (Unit {0})
unfolding announce
stop m = announce (record m { active = false; token = []; started_at = 0 }) tt

-- The constant-time comparison is equality of the bytes.
unfoldable pub valid : Text → Manager → Bool
valid token m =
    if not m.active || is_empty m.token || is_empty token then false else same token m.token

-- Exactly the token of an active session is valid, and the empty token never is.
pub valid_iff :
    (token : Text) (m : Manager)
    → (valid token m ≡ true) ↔ ((m.active ≡ true) × (m.token ≡ token) × (is_empty token ≡ false))
unfolding valid
valid_iff token m =
    (λ h. ground (arith, same_iff token m.token), λ h. ground (arith, h, same_iff token m.token))
