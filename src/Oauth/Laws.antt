-- ===== src/Oauth/Laws.antt =====
-- Whom a code logs in.
use media_share.Prelude.{
  ◌≡◌, refl, ap, true, false, Option, none, some, List, [], ◌∷◌, ◌++◌, Text, codes, same, is_empty,
  All, arith, ◌==◌, Bool-cases, inl, inr, if◌then◌else◌,
}
use media_share.Strings.{to_lower, join}
use media_share.Strings.Query.{encode, set_value}
use media_share.Strings.Query.Laws.{IsByte, parse_query, parse_query-encode}
use media_share.Auth.{TwitchUser}
use media_share.Oauth.{
  Answer, right, wrong, ◌>>=◌, Http, post_form, get_with, Response, TokenResponse, Decoder, Client,
  token_endpoint, helix_users_url, authorize_endpoint, authorize_url, consent_values,
  exchange_values, read_body, get_user, user_in, first_user, display, checked, access_token_of,
  exchange_code_for_user,
}

pub >>=-eq-right :
    {A B : Type 0} (m : Answer A) (f : A → Answer B) (b : B)
    → (m >>= f) ≡ right b
    → (a : A) × (m ≡ right a) × (f a ≡ right b)
>>=-eq-right (right a) f b h = (a, refl, h)
>>=-eq-right (wrong e) f b h = cc

-- What the two answers of Twitch said.
pub record Vouched (http : Http) (decoder : Decoder) (c : Client) (code : Text) (u : TwitchUser)
    : Type 0 where
  pub granted : Response
  pub token : TokenResponse
  pub listed : Response
  pub first : TwitchUser
  pub others : List TwitchUser
  pub exchanged : http (post_form token_endpoint (encode (exchange_values c code))) ≡ right granted
  pub granted_ok : (granted.status == 200) ≡ true
  pub token_read : decoder.token_response (read_body granted) ≡ some token
  pub token_there : is_empty token.access_token ≡ false
  pub asked :
      http (get_with helix_users_url c.client_id (codes "Bearer " ++ token.access_token))
      ≡ right listed
  pub listed_ok : (listed.status == 200) ≡ true
  pub users_read : decoder.users (read_body listed) ≡ some (first ∷ others)
  pub same_id : u.id ≡ first.id
  pub same_login : u.login ≡ to_lower first.login
  pub named :
      u.display_name ≡ (if is_empty first.display_name then first.login else first.display_name)

checked-right :
    (r : Response) (t : Option TokenResponse) (token : Text)
    → checked r t ≡ right token
    → (a : TokenResponse) × (t ≡ some a)
      × (a.access_token ≡ token)
      × ((r.status == 200) ≡ true)
      × (is_empty a.access_token ≡ false)
unfolding checked
checked-right r none token h = cc
checked-right r (some t) token h = (t, refl, ground arith, ground arith, ground arith)

first_user-right :
    (us : Option (List TwitchUser)) (u : TwitchUser)
    → first_user us ≡ right u
    → (first : TwitchUser) × (others : List TwitchUser) × (us ≡ some (first ∷ others))
      × (u ≡ display first)
unfolding first_user
first_user-right none u h = cc
first_user-right (some []) u h = cc
first_user-right (some (x ∷ xs)) u h = (x, xs, refl, ground arith)

user_in-right :
    (decoder : Decoder) (r : Response) (u : TwitchUser)
    → user_in decoder r ≡ right u
    → ((r.status == 200) ≡ true)
      × (first : TwitchUser) × (others : List TwitchUser) × (decoder.users (read_body r)
          ≡ some (first ∷ others))
      × (u ≡ display first)
unfolding user_in
user_in-right decoder r u h = elim (Bool-cases (r.status == 200)) [
  | inl good ↦
      let (first, others, users, shown) =
        first_user-right (decoder.users (read_body r)) u (ground arith) in
      (good, first, others, users, shown)
  | inr bad ↦ absurd (ground arith)
]

-- A code logs in only the first user that Twitch lists for the access token that it gave for this code,
-- both with the status 200; the login is in lower case, and stands in for a display name that is empty.
pub exchange_code_for_user-Vouched :
    (http : Http) (decoder : Decoder) (c : Client) (code : Text) (u : TwitchUser)
    → exchange_code_for_user http decoder c code ≡ right u
    → Vouched http decoder c code u
unfolding exchange_code_for_user get_user access_token_of display
exchange_code_for_user-Vouched http decoder c code u h =
    let form = post_form token_endpoint (encode (exchange_values c code)) in
    let (token, granted, asked) =
      >>=-eq-right (access_token_of http decoder c code) (get_user http decoder c) u h in
    let (r, got, fits) =
      >>=-eq-right (http form) (λ r. checked r (decoder.token_response (read_body r))) token
        granted in
    let (t, read, same, good, there) =
      checked-right r (decoder.token_response (read_body r)) token fits in
    let (listed, at, found) =
      >>=-eq-right (http (get_with helix_users_url c.client_id (codes "Bearer " ++ token)))
        (user_in decoder) u asked in
    let (fine, first, others, users, shown) = user_in-right decoder listed u found in
    record {
      granted = r;
      token = t;
      listed = listed;
      first = first;
      others = others;
      exchanged = got;
      granted_ok = good;
      token_read = read;
      token_there = there;
      asked = rw same at;
      listed_ok = fine;
      users_read = users;
      same_id = ap (λ (x : TwitchUser). x.id) shown;
      same_login = ap (λ (x : TwitchUser). x.login) shown;
      named = ap (λ (x : TwitchUser). x.display_name) shown;
    }

-- The order in which the values are written is that of their keys.
consent-sorted :
    (c : Client) (state : Text) (scopes : List Text)
    → consent_values c state scopes
      ≡ (codes "client_id", c.client_id)
        ∷ (codes "redirect_uri", c.redirect_uri)
        ∷ (codes "response_type", codes "code")
        ∷ (codes "scope", join scopes (codes " "))
        ∷ (codes "state", state)
        ∷ []
unfolding consent_values set_value same
consent-sorted c state scopes = refl

module _ (c : Client) (state : Text) (scopes : List Text) where
  -- The consent URL is the endpoint with a query that reads back as the client's id and redirect URI,
  -- the scopes and the state as they were given, whatever bytes they hold.
  pub authorize_url-parse_query :
      All IsByte c.client_id
      → All IsByte c.redirect_uri
      → All IsByte (join scopes (codes " "))
      → All IsByte state
      → (query : Text) × (authorize_url c state scopes ≡ authorize_endpoint ++ (codes "?" ++ query))
        × (parse_query query
            ≡ (codes "client_id", c.client_id)
              ∷ (codes "redirect_uri", c.redirect_uri)
              ∷ (codes "response_type", codes "code")
              ∷ (codes "scope", join scopes (codes " "))
              ∷ (codes "state", state)
              ∷ [])
  unfolding authorize_url
  authorize_url-parse_query id uri joined st = (
    encode (consent_values c state scopes),
    refl,
    rw (consent-sorted c state scopes) (
        parse_query-encode _ _ (
          (omega arith, id),
          (
            (omega arith, uri),
            ((omega arith, omega arith), ((omega arith, joined), ((omega arith, st), tt))),
          ),
        )),
  )
