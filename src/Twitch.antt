-- ===== src/Twitch.antt =====
-- internal/twitch: the chat bot of a streamer's channel. Parse has the lines of the chat, Bot the commands and
-- the connection, Oauth the tokens of the bot's account, Files their store, and Controller what connects,
-- refreshes and disconnects the account.
pub mod Parse
pub mod Bot
pub mod Oauth
pub mod Files
pub mod Controller
mod Sample
mod Tests
