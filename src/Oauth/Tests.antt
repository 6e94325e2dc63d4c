-- ===== src/Oauth/Tests.antt =====
-- A code that Twitch exchanges for a token, and the user that it lists for this token.
use media_share.Prelude.{◌≡◌, refl, Option, none, some, [], ◌∷◌, Text, codes}
use media_share.Auth.{TwitchUser}
use media_share.Oauth.{
  Answer, right, wrong, Http, HttpRequest, post_form, get_with, Response, TokenResponse, Decoder,
  Client, exchange_code_for_user, authorize_url,
}

abbrev client : Client
client = record {
  client_id = codes "id";
  client_secret = codes "secret";
  redirect_uri = codes "http://localhost:8080/auth/twitch/callback";
}

abbrev listed : TwitchUser
listed = record { id = codes "42"; login = codes "Vic"; display_name = [] }

abbrev http : Http
http (post_form url form) = right (record { status = 200; body = codes "granted" })
http (get_with url id bearer) = right (record { status = 200; body = codes "users" })

abbrev decoder : Decoder
decoder = record {
  token_response = λ body. some (record { access_token = codes "t"; error = []; message = [] });
  users = λ body. some (listed ∷ []);
}

abbrev vic : TwitchUser
vic = record { id = codes "42"; login = codes "vic"; display_name = codes "Vic" }

exchanged : exchange_code_for_user http decoder client (codes "code") ≡ right vic
unfolding exchange_code_for_user media_share.Oauth.get_user media_share.Strings.to_lower
exchanged = refl

authorize_url_test :
    authorize_url client (codes "a+b") (codes "chat:read" ∷ codes "chat:edit" ∷ [])
    ≡ codes
        "https://id.twitch.tv/oauth2/authorize?client_id=id&redirect_uri=http%3A%2F%2Flocalhost%3A8080%2Fauth%2Ftwitch%2Fcallback&response_type=code&scope=chat%3Aread+chat%3Aedit&state=a%2Bb"
unfolding authorize_url media_share.Strings.Query.encode media_share.Oauth.consent_values
    media_share.Strings.Query.set_value media_share.Prelude.same
    media_share.Strings.Query.query_escape
authorize_url_test = refl
