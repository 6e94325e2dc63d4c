-- ===== src/Youtube/Tests.antt =====
-- The link parser on a bare id and on a few times.
use media_share.Prelude.{◌≡◌, refl, true, Option, none, some, [], ◌∷◌, Text, codes}
use media_share.Prelude.Int.{pos}
use media_share.Strings.{atoi, split, trim_space}
use media_share.Youtube.{Url, is_youtube_id, parse_youtube}
use media_share.Youtube.Laws.{parse_youtube-id, place_values}

abbrev no_url : Text → Option Url
no_url _ = none

abbrev id : Text
id = codes "dQw4w9WgXcQ"

parsed : parse_youtube no_url id ≡ some (id, pos 0)
unfolding parse_youtube is_youtube_id trim_space
parsed = refl

parse_youtube-id_example : is_youtube_id id ≡ true
parse_youtube-id_example = parse_youtube-id no_url id id (pos 0) parsed

places : place_values (split (codes "1:02:03") b':') ≡ some (1 ∷ 2 ∷ 3 ∷ [])
unfolding split atoi
places = refl

huge_places :
    place_values (split (codes "153722867280912931:0") b':') ≡ some (153722867280912931 ∷ 0 ∷ [])
unfolding split atoi
huge_places = refl
