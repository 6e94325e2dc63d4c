-- ===== src/Lib.antt =====
-- Media share: viewers submit clips to a streamer's queue and pay with credits that they get for
-- cheered bits; the streamer and invited moderators steer the queue, and a player plays it.
--
-- The parts and their files:
-- * Queue (internal/queue/queue.go): one streamer's pending items, approved queue and player. Each
--   method holds one lock, so it is a function from the manager to its outcome: the manager, the
--   result, the items that left, the snapshots sent. Queue.Ops has the methods as one machine.
-- * Youtube (internal/queue/youtube.go): the parser of links and of start times.
-- * Session (internal/session/session.go): whether submissions are open, and the invite token.
-- * Tenant (internal/tenant/registry.go): the queue and session of each streamer, and the index from
--   invite tokens to streamers. Tenant.Links has the calls that change it as one machine, Tenant.Races the
--   steps between their locks as the goroutines interleave.
-- * Store (internal/store/store.go): Store.Db has the tables and the calls of database/sql, Store.People
--   the accounts, Store.Sessions the login sessions and moderator links, Store.Credits the balances,
--   the processed messages and the ledger.
-- * Auth (internal/auth/auth.go): OAuth states, logins and cookies, over the store; Auth.Middleware has the
--   logouts, the authentication of a request and the guards.
-- * Config (internal/config/config.go): the settings from the environment; Config.Dotenv (dotenv.go) the .env
--   file that fills it.
-- * Oauth (internal/oauth/oauth.go): the consent URL, and the exchange of a code for its user.
-- * Twitch (internal/twitch): Twitch.Parse has the lines of the chat (parse.go); Twitch.Bot the commands of the
--   bot, Twitch.Bot.Session one connection and Twitch.Bot.Backoff the loop that connects again (bot.go);
--   Twitch.Oauth the requests for its token (oauth.go), Twitch.Files the file of the token (store.go), and
--   Twitch.Controller connecting, refreshing and disconnecting its account (controller.go). The steps that
--   the controller's functions consist of are the moves of Twitch.Controller.Moves, which interleave. Of all
--   this main.go uses the signatures of the webhook only: the bot is kept for later (README.md).
-- * Server (internal/server): Server.Submit has the submissions (handlers_submit.go), over the store, the
--   registry and the stored files, Server.EventSub the webhook of the cheers (handlers_eventsub.go,
--   internal/twitch/eventsub.go), Server.Handlers the handlers that steer the queue, the session and the
--   moderators (handlers_admin.go, handlers_player.go, handlers_session.go, handlers_moderators.go),
--   Server.Viewers a viewer's balance, the test grants and the claim of a moderator link
--   (handlers_viewer.go, handlers_auth.go), Server.Logins the routes of the logins and logouts (the same
--   files), Server.Pages the pages and the rooms of the WebSockets with the registry's messages that they
--   begin with (render.go, server.go, ServeWS of internal/hub/hub.go), and
--   Server.Requests the routes that use the site (server.go) as one machine.
-- * Hub (internal/hub/hub.go): the WebSocket clients of the rooms, their bounded channels, and the steps of
--   the goroutines as they interleave. A list stands for the map of the clients (Hub.Unordered).
-- * Strings are Go's strings and strconv on bytes, Random the tokens, Prelude what all share.
--
-- A statement of SQL is read by its meaning on the tables, with the primary keys, the unique and the
-- foreign keys of the schema that it can break. A transaction saves the tables when it begins; the
-- deferred rollback brings them back unless it was committed. Behind a commit that fails database/sql's
-- rollback does nothing: that SQLite undoes the statements then is taken as given. The database has one connection, so
-- transactions do not interleave. Server.Requests serves the requests one after another; how two
-- handlers interleave between their calls of the store and of the registry is not modelled (the calls of the
-- registry alone are, in Tenant.Races). Which
-- calls of the database fail is a parameter: a function from the number of the call, that a theorem is
-- for all of, or `calm`, where none fails.
--
-- Also parameters: the bytes of crypto/rand, the times, the ids of uuid, net/url's Parse, the exchange
-- of an OAuth code with Twitch (Server.Logins.Owners and Server.Logins.Viewers put that of Oauth in its
-- place), HMAC-SHA256, the JSON decoder, the parser of RFC 3339 times, the http client and the websocket
-- of Twitch, and what the disk answers. Loops are recursions on lists. The loop that connects the bot
-- again runs as many rounds as it is given, and ends by itself in the round behind the end of its
-- context; a connection that nobody ends and that has no further message blocks its reader for ever, unless the
-- goroutine that waits for the end of the context closes it. A number n is printed in n + 1 steps at most. No other fuel is needed.
--
-- Credits are integers without a bound; SQLite's change to floating point behind 2^63 is not modelled.
-- The price of a clip and the start times wrap around as int64 does. Case and white space are those of
-- ASCII. A page is the data that its template is given. Not modelled: the templates and the writing of JSON,
-- the static and the media files, logging, the start of the program, and the pings and deadlines of
-- WebSockets.
pub mod Prelude
pub mod Queue
pub mod Random
pub mod Session
pub mod Tenant
pub mod Store
pub mod Strings
pub mod Youtube
pub mod Auth
pub mod Config
pub mod Oauth
pub mod Twitch
pub mod Server
pub mod Hub
