-- ===== src/Twitch/Controller/Credentials.antt =====
-- What a bot logs in with.
use media_share.Prelude.{
  ◌≡◌, refl, inl, inr, true, false, Option, none, some, [], arith, Bool-cases,
}
use media_share.Prelude.Int.{ℤ}
use media_share.Oauth.{Answer, right, wrong, Http}
use media_share.Twitch.Oauth.{Token, Decoder, refresh}
use media_share.Twitch.Files.{Codec, Progress}
use media_share.Twitch.Bot.Session.{Creds}
use media_share.Twitch.Controller.{
  System, refreshed, credentials, provide, needs_refresh, creds_of, adopt,
}

-- The token that the credentials are of: the controller's, which needs no refresh, or that of a refresh
-- of the controller's, which has become the controller's.
pub data Provided (http : Http) (decoder : Decoder) (now : ℤ) (s s' : System) (t : Token)
    : Type 0 where
  as_it_was :
      s.controller.token ≡ some t
      → needs_refresh now t ≡ false
      → s' ≡ s
      → Provided http decoder now s s' t
  by_refresh :
      (old : Token)
      → s.controller.token ≡ some old
      → needs_refresh now old ≡ true
      → refresh http decoder s.controller.client now old ≡ right t
      → s'.controller.token ≡ some t
      → s'.controller.last_err ≡ []
      → Provided http decoder now s s' t

refreshed-right :
    (codec : Codec) (p : Progress) (a : Answer Token) (s : System) (creds : Creds)
    → (refreshed codec p a s).0 ≡ right creds
    → (t : Token) × (a ≡ right t)
      × (creds ≡ creds_of t)
      × ((refreshed codec p a s).1.controller.token ≡ some t)
      × ((refreshed codec p a s).1.controller.last_err ≡ [])
unfolding refreshed adopt
refreshed-right codec p (wrong e) s creds h = cc
refreshed-right codec p (right t) s creds h = (t, refl, ground arith, refl, refl)

provide-right :
    (http : Http) (decoder : Decoder) (codec : Codec) (now : ℤ) (p : Progress) (o : Option Token)
    (s : System) (creds : Creds)
    → s.controller.token ≡ o
    → (provide http decoder codec now p o s).0 ≡ right creds
    → (t : Token) × (creds ≡ creds_of t)
      × Provided http decoder now s (provide http decoder codec now p o s).1 t
unfolding provide
provide-right http decoder codec now p none s creds at h = cc
provide-right http decoder codec now p (some old) s creds at h =
    elim (Bool-cases (needs_refresh now old)) [
      | inr fresh ↦ (old, ground arith, rw fresh (Provided.as_it_was at fresh refl))
      | inl stale ↦
          let (t, right_one, same, token, error) =
            refreshed-right codec p (refresh http decoder s.controller.client now old) s creds
              (ground arith) in
          (t, same, rw stale (Provided.by_refresh old at stale right_one token error))
    ]

-- Credentials that a bot gets are those of the controller's token, where it needs no refresh, and the
-- controller is as it was; or those of a token that Twitch just gave for the refresh token of the
-- controller's, and the controller now has it and no error.
credentials-provides :
    (http : Http) (decoder : Decoder) (codec : Codec) (now : ℤ) (p : Progress) (s : System)
    (creds : Creds)
    → (credentials http decoder codec now p s).0 ≡ right creds
    → (t : Token) × (creds ≡ creds_of t)
      × Provided http decoder now s (credentials http decoder codec now p s).1 t
unfolding credentials
credentials-provides http decoder codec now p s creds h =
    provide-right http decoder codec now p s.controller.token s creds refl h
