-- ===== src/Server/Viewers.antt =====
-- internal/server/handlers_viewer.go and handlers_auth.go: a viewer's balance, the grants for tests, and
-- the claim of a moderator link.
pub mod Laws
use media_share.Prelude.{
  ℕ, Bool, true, false, not, Option, none, some, Text, List, [], is_empty, if◌then◌else◌,
}
use media_share.Prelude.Int.{ℤ, pos, leb_ℤ}
use media_share.Random.{Rng}
use media_share.Strings.{trim_space}
use media_share.Store.Db.{Viewer, Error, Result, ok, err, not_found, World}
use media_share.Store.Credits.{balance, grant_credits}
use media_share.Store.Sessions.{resolve_moderator_link}
use media_share.Tenant.{Tenant, resolve_session}
use media_share.Auth.{Cookie, Fresh, login_moderator}
use media_share.Auth.Middleware.{Request, authenticate_viewer}
use media_share.Server.{Site}

-- The reply with the balance, or a status.
pub data BalanceReply : Type 0 where
  refused : ℕ → BalanceReply
  holds : ℤ → BalanceReply

read_balance : Result ℤ → BalanceReply
read_balance (ok b) = holds b
read_balance (err e) = refused 500

balance_in : Viewer → Option Tenant → World → BalanceReply × World
unfolding read_balance
balance_in v none w = (holds (pos 0), w)
balance_in v (some t) w = let (b, w') = balance v.id t.streamer_id w in (read_balance b, w')

-- Behind RequireViewer; the balance is that of the channel of the token, 0 without one.
unfoldable pub handle_viewer_me : Viewer → Text → Site → BalanceReply × Site
unfolding balance_in
handle_viewer_me v token s =
    let (reply, w) = balance_in v (resolve_session (trim_space token) s.registry) s.world in
    (reply, record s { world = w })

-- The body, as far as it decodes.
pub record Grant : Type 0 where
  pub session : Text
  pub streamer_id : Text
  pub amount : ℤ

streamer_of : Option Tenant → Text
streamer_of none = []
streamer_of (some t) = t.streamer_id

-- The explicit id, or that of the token's channel; empty without one.
unfoldable pub channel_of : Grant → Site → Text
unfolding streamer_of
channel_of g s =
    if is_empty g.streamer_id
    then streamer_of (resolve_session (trim_space g.session) s.registry)
    else g.streamer_id

amount_of : Grant → ℤ
amount_of g = if leb_ℤ g.amount (pos 0) then pos 1000 else g.amount

or_nothing : Result ℤ → ℤ
or_nothing (ok b) = b
or_nothing (err e) = pos 0

-- The error of the balance is dropped.
told : Text → Text → Result (Unit {0}) → World → BalanceReply × World
unfolding or_nothing
told viewer_id channel (err e) w = (refused 500, w)
told viewer_id channel (ok _) w =
    let (b, w') = balance viewer_id channel w in (holds (or_nothing b), w')

granted : Rng → ℕ → Text → Text → ℤ → World → BalanceReply × World
unfolding told
granted rng now viewer_id channel amount w =
    if is_empty channel
    then (refused 400, w)
    else (let (r, w') = grant_credits rng now viewer_id channel amount w in
        told viewer_id channel r w')

grant_to : Rng → ℕ → Text → ℤ → Result Viewer → World → BalanceReply × World
unfolding granted
grant_to rng now channel amount (err e) w = (refused 401, w)
grant_to rng now channel amount (ok v) w = granted rng now v.id channel amount w

-- `dev_login` is the configuration's DEV_LOGIN.
unfoldable pub handle_dev_credit : Bool → Rng → ℕ → Request → Grant → Site → BalanceReply × Site
unfolding grant_to amount_of
handle_dev_credit dev_login rng now req g s =
    if not dev_login
    then (refused 404, s)
    else (let (v, w) = authenticate_viewer now req s.world in
        let (reply, w') = grant_to rng now (channel_of g s) (amount_of g) v w in
        (reply, record s { world = w' }))

-- A status, or the redirection with the cookie of the new session.
pub data ClaimReply : Type 0 where
  failed : ℕ → ClaimReply
  claimed : Cookie → ClaimReply

logged_in : Result Cookie → ClaimReply
logged_in (ok c) = claimed c
logged_in (err e) = failed 500

claim : Fresh → Result Text → World → ClaimReply × World
unfolding logged_in
claim f (err not_found) w = (failed 404, w)
claim f (err e) w = (failed 500, w)
claim f (ok owner_id) w = let (c, w') = login_moderator f owner_id w in (logged_in c, w')

unfoldable pub handle_mod_claim : Fresh → Text → World → ClaimReply × World
unfolding claim
handle_mod_claim f token w =
    let (owner_id, w') = resolve_moderator_link token w in claim f owner_id w'
