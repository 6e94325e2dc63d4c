-- ===== src/Youtube.antt =====
-- internal/queue/youtube.go: the video id and the start of a YouTube link. `net/url` is a parameter: what
-- it reads off a link is a `Url`, and `none` is an error of url.Parse.
pub mod Laws
mod Tests
use media_share.Prelude.{
  ℕ, ◌+◌, ◌-◌, ◌*◌, ◌≡◌, refl, Bool, true, false, not, ◌&&◌, ◌||◌, Option, none, some, List, [],
  ◌∷◌, ◌++◌, Text, codes, same, is_empty, ◌==◌, leb, length, if◌then◌else◌,
}
use media_share.Prelude.Int.{ℤ, pos, negsuc, ◌+ℤ◌, int64, scale, ltb_ℤ}
use media_share.Strings.{
  to_lower, has_prefix, trim_prefix, has_suffix, contains, trim_space, trim, split, atoi,
}

pub record Url : Type 0 where
  pub hostname : Text
  pub path : Text
  pub fragment : Text
  -- the first values of the query's parameters, empty where there is none
  pub query_v : Text
  pub query_t : Text
  pub query_start : Text

abbrev is_id_char : ℕ → Bool
is_id_char c =
    (leb b'A' c && leb c b'Z')
    || (leb b'a' c && leb c b'z')
    || (leb b'0' c && leb c b'9')
    || c == b'_'
    || c == b'-'

all_id_chars : Text → Bool
all_id_chars [] = true
all_id_chars (c ∷ s) = is_id_char c && all_id_chars s

-- `^[A-Za-z0-9_-]{11}$`
unfoldable pub is_youtube_id : Text → Bool
unfolding all_id_chars
is_youtube_id s = length s == 11 && all_id_chars s

-- m:ss and h:mm:ss; the int arithmetic wraps around
colon_total : ℤ → List Text → ℤ
colon_total total [] = total
colon_total total (p ∷ ps) = elim (atoi p) [
  | none ↦ pos 0
  | some n ↦
      let rest = colon_total (int64 (scale 60 total +ℤ n)) ps in
      if ltb_ℤ n (pos 0) then pos 0 else rest
]

unfoldable pub parse_colon_time : Text → ℤ
unfolding colon_total
parse_colon_time s = colon_total (pos 0) (split s b':')

-- The loop over "1h2m3s": the total, the number at hand, whether a suffix was seen.
suffix_total : ℤ → ℤ → Bool → Text → ℤ
suffix_total total cur matched [] = if matched then int64 (total +ℤ cur) else pos 0
suffix_total total cur matched (r ∷ s) =
    let digit = suffix_total total (int64 (scale 10 cur +ℤ pos (r - b'0'))) matched s in
    let hours = suffix_total (int64 (total +ℤ scale 3600 cur)) (pos 0) true s in
    let minutes = suffix_total (int64 (total +ℤ scale 60 cur)) (pos 0) true s in
    let seconds = suffix_total (int64 (total +ℤ cur)) (pos 0) true s in
    if leb b'0' r && leb r b'9'
    then digit
    else if r == b'h'
    then hours
    else if r == b'm'
    then minutes
    else if r == b's'
    then seconds
    else pos 0

abbrev clamp_negative : ℤ → ℤ
clamp_negative n = if ltb_ℤ n (pos 0) then pos 0 else n

seconds_of : Text → Option ℤ → ℤ
unfolding parse_colon_time suffix_total
seconds_of s (some n) = clamp_negative n
seconds_of s none =
    if contains s (b':' ∷ []) then parse_colon_time s else suffix_total (pos 0) (pos 0) false s

unfoldable pub parse_time_to_seconds : Text → ℤ
unfolding seconds_of to_lower trim_space atoi contains split int64 scale
parse_time_to_seconds s =
    let t = trim_space (to_lower s) in if is_empty t then pos 0 else seconds_of t (atoi t)

-- The id in the path: /embed/<id>, /shorts/<id>, /v/<id>, /live/<id>
path_id : List Text → Text
path_id (a ∷ b ∷ rest) =
    if same a (codes "embed")
      || same a (codes "shorts")
      || same a (codes "v")
      || same a (codes "live")
    then b
    else []
path_id _ = []

abbrev or_else : Text → Text → Text
or_else s t = if is_empty s then t else s

-- The `switch` on the host; `none` is its default.
id_in : Text → Url → Option Text
unfolding path_id
id_in host u =
    if same host (codes "youtu.be")
    then some (trim u.path b'/')
    else if has_suffix host (codes "youtube.com") || has_suffix host (codes "youtube-nocookie.com")
    then some (or_else u.query_v (path_id (split (trim u.path b'/') b'/')))
    else none

-- The start in `t=`, else in `start=`, else in the fragment.
unfoldable pub start_text : Url → Text
start_text u = or_else u.query_t (
    or_else u.query_start
      (if has_prefix u.fragment (codes "t=") then trim_prefix u.fragment (codes "t=") else []))

accepted : Url → Option Text → Option (Text × ℤ)
unfolding start_text
accepted u none = none
accepted u (some id) =
    if is_youtube_id id then some (id, parse_time_to_seconds (start_text u)) else none

located : Option Url → Option (Text × ℤ)
unfolding accepted id_in
located none = none
located (some u) = accepted u (id_in (to_lower (trim_prefix u.hostname (codes "www."))) u)

with_scheme : Text → Text
with_scheme raw = if contains raw (codes "://") then raw else codes "https://" ++ raw

-- `parse_url` is url.Parse.
unfoldable pub parse_youtube : (Text → Option Url) → Text → Option (Text × ℤ)
unfolding located with_scheme
parse_youtube parse_url raw =
    let raw' = trim_space raw in
    if is_empty raw'
    then none
    else if is_youtube_id raw'
    then some (raw', pos 0)
    else located (parse_url (with_scheme raw'))
