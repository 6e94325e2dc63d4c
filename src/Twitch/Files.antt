-- ===== src/Twitch/Files.antt =====
-- internal/twitch/store.go: the token of the bot's account as a file. encoding/json is an argument, and how far
-- a call comes on the disk: by an error, or because the process ends there.
pub mod Laws
use media_share.Prelude.{ℕ, Bool, true, false, Option, none, some, Text, is_empty, if◌then◌else◌}
use media_share.Oauth.{limited}
use media_share.Twitch.Oauth.{Token}

-- json.MarshalIndent and json.Unmarshal of a token.
pub record Codec : Type 0 where
  pub marshal : Token → Text
  pub unmarshal : Text → Option Token

-- twitch.json and twitch.json.tmp
pub record Directory : Type 0 where
  pub token_file : Option Text
  pub temp_file : Option Text

-- What `Get` returns: a token, ErrNoToken, or another error.
pub data Found : Type 0 where
  found : Token → Found
  no_token unreadable : Found

usable : Option Token → Found
usable none = unreadable
usable (some t) = if is_empty t.access_token then no_token else found t

read : Codec → Option Text → Found
unfolding usable
read codec none = no_token
read codec (some text) = usable (codec.unmarshal text)

-- `readable` is false for an error of the disk other than that the file is missing.
unfoldable pub get : Codec → Bool → Directory → Found
unfolding read
get codec true dir = read codec dir.token_file
get codec false dir = unreadable

-- Where a `Save` ends: without the directory, without the JSON, with n bytes of the temporary file
-- written, without the renaming, or whole. A process that ends behind the renaming leaves the files of
-- `saved`.
pub data Progress : Type 0 where
  no_directory unmarshalled : Progress
  write_stopped : ℕ → Progress
  not_renamed saved : Progress

-- The flag says that no error is returned.
unfoldable pub save : Codec → Progress → Token → Directory → Bool × Directory
save codec no_directory t dir = (false, dir)
save codec unmarshalled t dir = (false, dir)
save codec (write_stopped n) t dir =
    (false, record dir { temp_file = some (limited n (codec.marshal t)) })
save codec not_renamed t dir = (false, record dir { temp_file = some (codec.marshal t) })
save codec saved t dir =
    (true, record dir { token_file = some (codec.marshal t); temp_file = none })

removed : Bool → Option Text → Bool × Option Text
removed removable none = (true, none)
removed true (some text) = (true, none)
removed false (some text) = (false, some text)

-- A file that is missing is no error.
unfoldable pub clear : Bool → Directory → Bool × Directory
unfolding removed
clear removable dir =
    let (done, file) = removed removable dir.token_file in (done, record dir { token_file = file })
