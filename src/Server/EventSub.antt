-- ===== src/Server/EventSub.antt =====
-- internal/server/handlers_eventsub.go and internal/twitch/eventsub.go: the cheers that Twitch reports.
pub mod Laws
use media_share.Prelude.{
  ℕ, ◌+◌, ◌*◌, Bool, true, false, not, ◌&&◌, ◌||◌, Option, none, some, List, [], ◌∷◌, ◌++◌, Text,
  codes, same, is_empty, leb, if◌then◌else◌,
}
use media_share.Prelude.Int.{ℤ, pos, leb_ℤ}
use media_share.Random.{Rng, hex}
use media_share.Store.Db.{World}
use media_share.Store.Credits.{Cheer, credit_bits}

-- The fields of the payload of a cheer.
pub record CheerEvent : Type 0 where
  pub is_anonymous : Bool
  pub user_id : Text
  pub user_login : Text
  pub user_name : Text
  pub broadcaster_user_id : Text
  pub bits : ℤ

-- `event` is `none` where the payload does not decode.
pub record Envelope : Type 0 where
  pub challenge : Text
  pub event : Option CheerEvent

-- What the handler reads of a request; an absent header is the empty text.
pub record Message : Type 0 where
  pub id : Text
  pub timestamp : Text
  pub signature : Text
  pub kind : Text
  pub body : Text

-- HMAC-SHA256 by the secret, the parsers of JSON and of RFC 3339 times, the configured secret, the
-- clock in nanoseconds, and what the store reads.
pub record Setting : Type 0 where
  pub hmac : Text → Text → Text
  pub decode : Text → Option Envelope
  pub parse_time : Text → Option ℕ
  pub secret : Text
  pub clock : ℕ
  pub ledger : Rng
  pub received : ℕ
  pub now : ℕ

abbrev pub replay_window : ℕ
replay_window = 600 * 1000000000

unfoldable pub event_sub_signature : (Text → Text → Text) → Text → Text → Text → Text → Text
event_sub_signature hmac secret id timestamp body =
    codes "sha256=" ++ hex (hmac secret (id ++ (timestamp ++ body)))

-- The constant-time comparison is equality of the bytes.
unfoldable pub verify_signature : Setting → Message → Bool
unfolding event_sub_signature
verify_signature c m =
    if is_empty c.secret
    then false
    else if is_empty m.id || is_empty m.timestamp || is_empty m.signature
    then false
    else same m.signature (event_sub_signature c.hmac c.secret m.id m.timestamp m.body)

within : ℕ → ℕ → Option ℕ → Bool
within clock age none = false
within clock age (some ts) = leb ts (clock + age) && leb clock (ts + age)

unfoldable pub timestamp_fresh : Setting → Message → Bool
unfolding within
timestamp_fresh c m = within c.clock replay_window (c.parse_time m.timestamp)

-- A status, or the echo of the challenge with status 200.
pub data Answer : Type 0 where
  status : ℕ → Answer
  echo : Text → Answer

abbrev pub cheer_of : Text → CheerEvent → Cheer
cheer_of msg_id e = record {
  msg_id = msg_id;
  viewer_id = e.user_id;
  login = e.user_login;
  display_name = e.user_name;
  streamer_id = e.broadcaster_user_id;
  bits = e.bits;
}

abbrev pub is_creditable : CheerEvent → Bool
is_creditable e =
    not (
      e.is_anonymous
      || is_empty e.user_id
      || is_empty e.broadcaster_user_id
      || leb_ℤ e.bits (pos 0))

-- The result of the store only goes to the log.
unfoldable pub handle_cheer_notification : Setting → Text → Option CheerEvent → World → World
handle_cheer_notification c msg_id none w = w
handle_cheer_notification c msg_id (some e) w =
    if is_creditable e then (credit_bits c.ledger c.received c.now (cheer_of msg_id e) w).1 else w

dispatch : Setting → Message → Option Envelope → World → Answer × World
unfolding handle_cheer_notification
dispatch c m none w = (status 400, w)
dispatch c m (some env) w =
    if same m.kind (codes "webhook_callback_verification")
    then (echo env.challenge, w)
    else if same m.kind (codes "revocation")
    then (status 200, w)
    else if same m.kind (codes "notification")
    then (status 200, handle_cheer_notification c m.id env.event w)
    else (status 204, w)

-- `none` is a body that cannot be read.
unfoldable pub handle_event_sub : Setting → Option Message → World → Answer × World
unfolding dispatch
handle_event_sub c none w = (status 400, w)
handle_event_sub c (some m) w =
    if not (verify_signature c m)
    then (status 403, w)
    else if not (timestamp_fresh c m)
    then (status 403, w)
    else dispatch c m (c.decode m.body) w
