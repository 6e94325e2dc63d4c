-- ===== src/Config.antt =====
-- internal/config/config.go: the settings of the program from its environment.
pub mod Dotenv
mod Tests
use media_share.Prelude.{
  ℕ, Bool, true, false, not, ◌&&◌, ◌||◌, Option, none, some, List, [], ◌∷◌, ◌++◌, Text, codes,
  Assoc, lookup, same, is_empty, not_empty, ◌==◌, if◌then◌else◌,
}
use media_share.Prelude.Int.{ℤ, pos, scale, int64}
use media_share.Strings.{to_lower, has_prefix, trim_prefix, trim_space, trim_right, split, atoi}

-- The environment of the process.
abbrev pub Env : Type 0
Env = Assoc Text

pub record Config : Type 0 where
  pub port : Text
  pub admin_token : Text
  pub media_dir : Text
  pub max_upload_mb : ℤ
  pub allowed_ext : List Text
  pub public_base_url : Text
  pub data_dir : Text
  pub db_path : Text
  pub twitch_channel : Text
  pub twitch_username : Text
  pub twitch_token : Text
  pub twitch_client_id : Text
  pub twitch_client_secret : Text
  pub twitch_event_sub_secret : Text
  pub credits_enabled : Bool
  pub credits_per_second : ℤ
  pub dev_login : Bool

or_default : Text → Option Text → Text
or_default default none = default
or_default default (some v) = if is_empty v then default else v

unfoldable pub env : Env → Text → Text → Text
unfolding or_default
env e key default = or_default default (lookup key e)

read_int : ℤ → Text → ℤ
read_int default v = elim (atoi v) [ none ↦ default | some n ↦ n ]

int_or_default : ℤ → Option Text → ℤ
unfolding read_int
int_or_default default none = default
int_or_default default (some v) = if is_empty v then default else read_int default v

unfoldable pub env_int : Env → Text → ℤ → ℤ
unfolding int_or_default
env_int e key default = int_or_default default (lookup key e)

one_of : Text → List Text → Bool
one_of s [] = false
one_of s (t ∷ ts) = same s t || one_of s ts

read_bool : Bool → Text → Bool
unfolding one_of
read_bool default v =
    if one_of v (codes "1" ∷ codes "true" ∷ codes "yes" ∷ codes "on" ∷ [])
    then true
    else if one_of v (codes "0" ∷ codes "false" ∷ codes "no" ∷ codes "off" ∷ [])
    then false
    else default

bool_or_default : Bool → Option Text → Bool
unfolding read_bool
bool_or_default default none = default
bool_or_default default (some v) =
    if is_empty v then default else read_bool default (to_lower (trim_space v))

unfoldable pub env_bool : Env → Text → Bool → Bool
unfolding bool_or_default
env_bool e key default = bool_or_default default (lookup key e)

unfoldable pub with_dot : Text → Text
with_dot part = if has_prefix part (codes ".") then part else codes "." ++ part

unfoldable pub dotted_parts : List Text → List Text
unfolding with_dot
dotted_parts [] = []
dotted_parts (part ∷ parts) =
    let rest = dotted_parts parts in
    let name = trim_space (to_lower part) in if is_empty name then rest else with_dot name ∷ rest

unfoldable pub split_ext : Text → List Text
unfolding dotted_parts
split_ext csv = dotted_parts (split csv b',')

-- `Load`, behind `loadDotEnv`; the warnings are left out.
unfoldable pub load : Env → Config
load e = record {
  port = env e (codes "PORT") (codes "8080");
  admin_token = env e (codes "ADMIN_TOKEN") [];
  media_dir = env e (codes "MEDIA_DIR") (codes "./media");
  max_upload_mb = env_int e (codes "MAX_UPLOAD_MB") (pos 100);
  allowed_ext = split_ext (env e (codes "ALLOWED_MEDIA_EXT") (codes "mp4,webm,mov,ogg"));
  public_base_url = trim_right (λ c. c == b'/') (env e (codes "PUBLIC_BASE_URL") []);
  data_dir = env e (codes "DATA_DIR") (codes "./data");
  db_path = env e (codes "DB_PATH") (codes "./data/media-share.db");
  twitch_channel = to_lower (trim_prefix (env e (codes "TWITCH_CHANNEL") []) (codes "#"));
  twitch_username = to_lower (env e (codes "TWITCH_BOT_USERNAME") []);
  twitch_token = env e (codes "TWITCH_OAUTH_TOKEN") [];
  twitch_client_id = env e (codes "TWITCH_CLIENT_ID") [];
  twitch_client_secret = env e (codes "TWITCH_CLIENT_SECRET") [];
  twitch_event_sub_secret = env e (codes "TWITCH_EVENTSUB_SECRET") [];
  credits_enabled = env_bool e (codes "CREDITS_ENABLED") true;
  credits_per_second = env_int e (codes "CREDITS_PER_SECOND") (pos 10);
  dev_login = env_bool e (codes "DEV_LOGIN") false;
}

unfoldable pub twitch_enabled : Config → Bool
twitch_enabled c =
    not_empty c.twitch_channel && not_empty c.twitch_username && not_empty c.twitch_token

unfoldable pub oauth_enabled : Config → Bool
oauth_enabled c = not_empty c.twitch_client_id && not_empty c.twitch_client_secret

unfoldable pub base_url : Config → Text
base_url c =
    if not_empty c.public_base_url then c.public_base_url else codes "http://localhost:" ++ c.port

unfoldable pub twitch_redirect_uri : Config → Text
unfolding base_url
twitch_redirect_uri c = base_url c ++ codes "/auth/twitch/callback"

unfoldable pub cookie_secure : Config → Bool
unfolding base_url
cookie_secure c = has_prefix (base_url c) (codes "https://")

unfoldable pub max_upload_bytes : Config → ℤ
max_upload_bytes c = int64 (scale 1024 (int64 (scale 1024 c.max_upload_mb)))
