-- ===== src/Twitch/Oauth.antt =====
-- internal/twitch/oauth.go: the tokens of the bot's account. Times are nanoseconds.
pub mod Laws
use media_share.Prelude.{
  ℕ, ◌*◌, ◌^◌, Bool, not, ◌||◌, Option, none, some, List, [], ◌∷◌, ◌++◌, Text, codes, is_empty,
  ◌==◌, if◌then◌else◌,
}
use media_share.Prelude.Int.{ℤ, pos, ◌+ℤ◌, ltb_ℤ, scale, int64}
use media_share.Strings.{to_lower, itoa, join}
use media_share.Strings.Query.{Values, set_value, encode}
use media_share.Oauth.{
  Answer, right, wrong, ◌>>=◌, Http, post_form, get_with, Response, Client, authorize_endpoint,
  token_endpoint, helix_users_url, read_body, first_non_empty,
}

abbrev pub second : ℕ
second = 1000000000

pub record Token : Type 0 where
  pub bot_login : Text
  pub channel : Text
  pub access_token : Text
  pub refresh_token : Text
  pub expires_at : ℤ

-- `Expired` at the time `now`, of a token that is there.
unfoldable pub expired : ℤ → Token → Bool
expired now t = ltb_ℤ t.expires_at (now +ℤ pos (30 * second))

pub record TokenResponse : Type 0 where
  pub access_token : Text
  pub refresh_token : Text
  pub expires_in : ℤ
  pub error : Text
  pub message : Text

pub record Decoder : Type 0 where
  pub token_response : Text → Option TokenResponse
  pub logins : Text → Option (List Text)

-- The query of the consent URL.
unfoldable pub consent_values : Client → Text → Values
consent_values c state = set_value (codes "force_verify") (codes "true") (
    set_value (codes "state") state (
      set_value (codes "scope") (join (codes "chat:read" ∷ codes "chat:edit" ∷ []) (codes " ")) (
        set_value (codes "response_type") (codes "code") (
          set_value (codes "redirect_uri") c.redirect_uri
            (set_value (codes "client_id") c.client_id [])))))

unfoldable pub authorize_url : Client → Text → Text
authorize_url c state = authorize_endpoint ++ (codes "?" ++ encode (consent_values c state))

status_text : ℕ → Text
status_text status = codes "status " ++ itoa status

pub checked : Response → Option TokenResponse → Answer TokenResponse
unfolding status_text
checked r none =
    wrong (codes "token endpoint: bad response (" ++ (status_text r.status ++ codes ")"))
checked r (some t) =
    if not (r.status == 200) || is_empty t.access_token
    then wrong (
        codes "token endpoint: "
        ++ first_non_empty (t.message ∷ t.error ∷ status_text r.status ∷ []))
    else right t

unfoldable pub post_token : Http → Decoder → Values → Answer TokenResponse
unfolding checked
post_token http decoder form = http (post_form token_endpoint (encode form)) >>= λ r.
    checked r (decoder.token_response (read_body r))

first_login : Option (List Text) → Answer Text
first_login none = wrong (codes "helix users: could not read login")
first_login (some []) = wrong (codes "helix users: could not read login")
first_login (some (l ∷ ls)) = right (to_lower l)

login_in : Decoder → Response → Answer Text
unfolding first_login status_text
login_in decoder r =
    if not (r.status == 200)
    then wrong (codes "helix users: " ++ status_text r.status)
    else first_login (decoder.logins (read_body r))

unfoldable pub get_user_login : Http → Decoder → Client → Text → Answer Text
unfolding login_in
get_user_login http decoder c access_token =
    http (get_with helix_users_url c.client_id (codes "Bearer " ++ access_token))
    >>= login_in decoder

-- `time.Now().Add(time.Duration(n) * time.Second)`; the product wraps around.
unfoldable pub ends_at : ℤ → ℤ → ℤ
ends_at now seconds = now +ℤ int64 (scale second seconds)

pub exchange_values : Client → Text → Values
exchange_values c code = set_value (codes "redirect_uri") c.redirect_uri (
    set_value (codes "grant_type") (codes "authorization_code") (
      set_value (codes "code") code (
        set_value (codes "client_secret") c.client_secret
          (set_value (codes "client_id") c.client_id []))))

pub token_of : ℤ → TokenResponse → Text → Token
token_of now tr login = record {
  bot_login = login;
  channel = [];
  access_token = tr.access_token;
  refresh_token = tr.refresh_token;
  expires_at = ends_at now tr.expires_in;
}

unfoldable pub exchange_code : Http → Decoder → Client → ℤ → Text → Answer Token
unfolding exchange_values token_of
exchange_code http decoder c now code = post_token http decoder (exchange_values c code) >>= λ tr.
    get_user_login http decoder c tr.access_token >>= λ login. right (token_of now tr login)

pub refresh_values : Client → Token → Values
refresh_values c prev = set_value (codes "refresh_token") prev.refresh_token (
    set_value (codes "grant_type") (codes "refresh_token") (
      set_value (codes "client_secret") c.client_secret
        (set_value (codes "client_id") c.client_id [])))

-- An answer without a refresh token keeps the old one.
next_token : ℤ → Token → TokenResponse → Token
next_token now prev tr = record {
  bot_login = prev.bot_login;
  channel = prev.channel;
  access_token = tr.access_token;
  refresh_token = if is_empty tr.refresh_token then prev.refresh_token else tr.refresh_token;
  expires_at = ends_at now tr.expires_in;
}

unfoldable pub refresh : Http → Decoder → Client → ℤ → Token → Answer Token
unfolding refresh_values next_token
refresh http decoder c now prev =
    post_token http decoder (refresh_values c prev) >>= λ tr. right (next_token now prev tr)
