-- ===== src/Twitch/Oauth/Laws.antt =====
-- What a refreshed token keeps.
use media_share.Prelude.{
  ℕ, ◌*◌, ◌^◌, ◌≤◌, ◌<◌, ◌≡◌, refl, false, true, Option, none, some, Text, is_empty, ◌==◌, arith,
  if◌then◌else◌,
}
use media_share.Prelude.Int.{ℤ, pos, scale, int64_of_small, +ℤ_parts}
use media_share.Strings.Query.{encode}
use media_share.Oauth.{right, ◌>>=◌, Http, Response, Client, post_form, token_endpoint, read_body}
use media_share.Oauth.Laws.{>>=-eq-right}
use media_share.Twitch.Oauth.{
  second, Token, expired, TokenResponse, Decoder, checked, post_token, ends_at, refresh,
  exchange_code, exchange_values, token_of, get_user_login, refresh_values, next_token,
}

pub checked-right :
    (r : Response) (t : Option TokenResponse) (tr : TokenResponse)
    → checked r t ≡ right tr
    → (t ≡ some tr) × ((r.status == 200) ≡ true) × (is_empty tr.access_token ≡ false)
unfolding checked
checked-right r none tr h = cc
checked-right r (some t) tr h = (ground arith, ground arith, ground arith)

-- The token endpoint's answer to the refresh token of `prev`.
pub record Answered (http : Http) (decoder : Decoder) (c : Client) (prev : Token)
    (tr : TokenResponse) : Type 0 where
  pub response : Response
  pub asked : http (post_form token_endpoint (encode (refresh_values c prev))) ≡ right response
  pub status_ok : (response.status == 200) ≡ true
  pub read : decoder.token_response (read_body response) ≡ some tr

-- A token that lasts half a minute or more is not expired yet, if its nanoseconds fit in an int64.
ends_at-lasts :
    (now : ℤ) (n : ℕ)
    → 30 ≤ n
    → second * n < 2 ^ 63
    → (t : Token) → t.expires_at ≡ ends_at now (pos n)
    → expired now t ≡ false
unfolding expired ends_at scale
ends_at-lasts now n low high t e =
    rw (e, int64_of_small (second * n) high)
      (ground (arith, +ℤ_parts now (pos (second * n)), +ℤ_parts now (pos (30 * second))))

-- A refresh that succeeds was answered with the status 200 and an access token. The new token has that
-- access token and the answer's end, the account and the channel of the old one, and its refresh token
-- unless a new one came.
pub refresh-right :
    (http : Http) (decoder : Decoder) (c : Client) (now : ℤ) (prev t : Token)
    → refresh http decoder c now prev ≡ right t
    → (tr : TokenResponse) × Answered http decoder c prev tr
      × (t.access_token ≡ tr.access_token)
      × (is_empty t.access_token ≡ false)
      × (t.bot_login ≡ prev.bot_login)
      × (t.channel ≡ prev.channel)
      × (t.refresh_token
          ≡ (if is_empty tr.refresh_token then prev.refresh_token else tr.refresh_token))
      × (t.expires_at ≡ ends_at now tr.expires_in)
unfolding refresh post_token
refresh-right http decoder c now prev t h =
    let form = post_form token_endpoint (encode (refresh_values c prev)) in
    let (tr, answered, made) =
      >>=-eq-right (post_token http decoder (refresh_values c prev))
        (λ tr. right (next_token now prev tr)) t h in
    let (r, asked, fits) =
      >>=-eq-right (http form) (λ r. checked r (decoder.token_response (read_body r))) tr
        answered in
    let (read, good, there) = checked-right r (decoder.token_response (read_body r)) tr fits in
    let same : t ≡ next_token now prev tr = ground arith in
    (
      tr,
      record { response = r; asked = asked; status_ok = good; read = read },
      rw same (unfold next_token in refl),
      rw same (unfold next_token in there),
      rw same (unfold next_token in refl),
      rw same (unfold next_token in refl),
      rw same (unfold next_token in refl),
      rw same (unfold next_token in refl),
    )

-- An exchange that succeeds gives an access token.
pub exchange_code-not_empty :
    (http : Http) (decoder : Decoder) (c : Client) (now : ℤ) (code : Text) (t : Token)
    → exchange_code http decoder c now code ≡ right t
    → is_empty t.access_token ≡ false
unfolding exchange_code post_token
exchange_code-not_empty http decoder c now code t h =
    let form = post_form token_endpoint (encode (exchange_values c code)) in
    let (tr, answered, rest) =
      >>=-eq-right (post_token http decoder (exchange_values c code))
        (λ tr.
          get_user_login http decoder c tr.access_token >>= λ login. right (token_of now tr login))
        t h in
    let (login, asked, made) =
      >>=-eq-right (get_user_login http decoder c tr.access_token)
        (λ login. right (token_of now tr login)) t rest in
    let (r, got, fits) =
      >>=-eq-right (http form) (λ r. checked r (decoder.token_response (read_body r))) tr
        answered in
    let (read, good, there) = checked-right r (decoder.token_response (read_body r)) tr fits in
    let same : t ≡ token_of now tr login = ground arith in rw same (unfold token_of in there)
