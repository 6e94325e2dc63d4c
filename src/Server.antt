-- ===== src/Server.antt =====
-- internal/server: the state behind the handlers, what of internal/config they read, and their replies.
pub mod Forms
pub mod Extensions
pub mod Submit
pub mod EventSub
pub mod Handlers
pub mod Sound
pub mod Viewers
pub mod Logins
pub mod Pages
pub mod Requests
mod Tests
use media_share.Prelude.{
  ℕ, ◌*◌, Bool, true, false, ◌||◌, List, [], ◌∷◌, ◌++◌, if◌then◌else◌, Text, codes, same, Assoc,
}
use media_share.Prelude.Int.{ℤ, int64, scale}
use media_share.Strings.{to_lower, has_prefix}
use media_share.Store.Db.{World}
use media_share.Tenant.{Registry}
use media_share.Auth.{StateEntry}
use media_share.Queue

-- The uploads and the amounts; the directory of the uploads is left to the disk.
pub record Config : Type 0 where
  pub max_upload_mb : ℤ
  pub allowed_ext : List Text
  pub credits_enabled : Bool
  pub credits_per_second : ℤ

unfoldable pub max_upload_bytes : Config → ℤ
max_upload_bytes c = int64 (scale 1024 (int64 (scale 1024 c.max_upload_mb)))

member : Text → List Text → Bool
member e [] = false
member e (x ∷ xs) = same x e || member e xs

dotted : Text → Text
dotted e = if has_prefix e (codes ".") then e else codes "." ++ e

unfoldable pub ext_allowed : Config → Text → Bool
unfolding member dotted
ext_allowed c ext = member (dotted (to_lower ext)) c.allowed_ext

-- The database, the states of the logins that have begun, the tenants, the names of the stored uploads,
-- and the snapshots sent to the hub.
pub record Site : Type 0 where
  pub world : World
  pub states : Assoc StateEntry
  pub registry : Registry
  pub files : List Text
  pub sent : List Queue.Call

-- `fault` is an error reply with its status; `too_poor` is the 402 with the cost and the balance.
pub data Reply : Type 0 where
  fault : ℕ → Reply
  too_poor : ℤ → ℤ → Reply
  accepted : Queue.Item → Reply
