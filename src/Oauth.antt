-- ===== src/Oauth.antt =====
-- internal/oauth/oauth.go: "Log in with Twitch". The http client and the JSON decoder are arguments.
pub mod Laws
mod Tests
use media_share.Prelude.{
  ℕ, zero, suc, ◌^◌, Bool, true, false, not, ◌||◌, Option, none, some, List, [], ◌∷◌, ◌++◌, Text,
  codes, is_empty, ◌==◌, if◌then◌else◌,
}
use media_share.Strings.{to_lower, itoa, join}
use media_share.Strings.Query.{Values, set_value, encode}
use media_share.Auth.{TwitchUser}

-- A value, or the text of an error.
pub data Answer (A : Type 0) : Type 0 where
  right : A → Answer A
  wrong : Text → Answer A

infixl 5 ◌>>=◌
abbrev pub ◌>>=◌ : {A B : Type 0} → Answer A → (A → Answer B) → Answer B
right a >>= f = f a
wrong e >>= f = wrong e

-- The endpoints are constants that parse; the bodies of a request are form values.
pub data HttpRequest : Type 0 where
  post_form : Text → Text → HttpRequest
  get_with : Text → Text → Text → HttpRequest

-- `http.Client.Do`, then io.ReadAll of the body: what was read, whether or not the read failed.
pub record Response : Type 0 where
  pub status : ℕ
  pub body : Text

abbrev pub Http : Type 0
Http = HttpRequest → Answer Response

-- A token endpoint's answer; `refresh_token` and `expires_in` are read by the chat bot only.
pub record TokenResponse : Type 0 where
  pub access_token : Text
  pub error : Text
  pub message : Text

-- json.Unmarshal into the two answers; `none` is its error.
pub record Decoder : Type 0 where
  pub token_response : Text → Option TokenResponse
  pub users : Text → Option (List TwitchUser)

pub record Client : Type 0 where
  pub client_id : Text
  pub client_secret : Text
  pub redirect_uri : Text

abbrev pub authorize_endpoint : Text
authorize_endpoint = codes "https://id.twitch.tv/oauth2/authorize"

abbrev pub token_endpoint : Text
token_endpoint = codes "https://id.twitch.tv/oauth2/token"

abbrev pub helix_users_url : Text
helix_users_url = codes "https://api.twitch.tv/helix/users"

-- The first n bytes: io.LimitReader.
unfoldable pub limited : ℕ → Text → Text
limited zero s = []
limited (suc n) [] = []
limited (suc n) (b ∷ s) = b ∷ limited n s

-- A megabyte is read at most.
unfoldable pub read_body : Response → Text
read_body r = limited (2 ^ 20) r.body

-- The query of the consent URL.
unfoldable pub consent_values : Client → Text → List Text → Values
consent_values c state scopes = set_value (codes "state") state (
    set_value (codes "scope") (join scopes (codes " ")) (
      set_value (codes "response_type") (codes "code") (
        set_value (codes "redirect_uri") c.redirect_uri
          (set_value (codes "client_id") c.client_id []))))

unfoldable pub authorize_url : Client → Text → List Text → Text
authorize_url c state scopes =
    authorize_endpoint ++ (codes "?" ++ encode (consent_values c state scopes))

unfoldable pub first_non_empty : List Text → Text
first_non_empty [] = []
first_non_empty (v ∷ vs) = if is_empty v then first_non_empty vs else v

status_text : ℕ → Text
status_text status = codes "status " ++ itoa status

users_error : Text
users_error = codes "helix users: could not read identity"

display : TwitchUser → TwitchUser
display u = record u {
  login = to_lower u.login;
  display_name = if is_empty u.display_name then u.login else u.display_name;
}

first_user : Option (List TwitchUser) → Answer TwitchUser
unfolding users_error display
first_user none = wrong users_error
first_user (some []) = wrong users_error
first_user (some (u ∷ us)) = right (display u)

user_in : Decoder → Response → Answer TwitchUser
unfolding first_user status_text
user_in decoder r =
    if not (r.status == 200)
    then wrong (codes "helix users: " ++ status_text r.status)
    else first_user (decoder.users (read_body r))

unfoldable pub get_user : Http → Decoder → Client → Text → Answer TwitchUser
unfolding user_in
get_user http decoder c access_token =
    http (get_with helix_users_url c.client_id (codes "Bearer " ++ access_token))
    >>= user_in decoder

checked : Response → Option TokenResponse → Answer Text
unfolding status_text
checked r none =
    wrong (codes "token endpoint: bad response (" ++ (status_text r.status ++ codes ")"))
checked r (some t) =
    if not (r.status == 200) || is_empty t.access_token
    then wrong (
        codes "token endpoint: "
        ++ first_non_empty (t.message ∷ t.error ∷ status_text r.status ∷ []))
    else right t.access_token

-- The form that a code is exchanged with.
unfoldable pub exchange_values : Client → Text → Values
exchange_values c code = set_value (codes "redirect_uri") c.redirect_uri (
    set_value (codes "grant_type") (codes "authorization_code") (
      set_value (codes "code") code (
        set_value (codes "client_secret") c.client_secret
          (set_value (codes "client_id") c.client_id []))))

access_token_of : Http → Decoder → Client → Text → Answer Text
unfolding checked
access_token_of http decoder c code =
    http (post_form token_endpoint (encode (exchange_values c code))) >>= λ r.
    checked r (decoder.token_response (read_body r))

unfoldable pub exchange_code_for_user : Http → Decoder → Client → Text → Answer TwitchUser
unfolding access_token_of
exchange_code_for_user http decoder c code =
    access_token_of http decoder c code >>= get_user http decoder c
