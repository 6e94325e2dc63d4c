-- ===== src/Strings/Tests.antt =====
-- The text functions on a few texts.
use media_share.Prelude.{◌≡◌, refl, true, none, some, [], ◌∷◌, codes}
use media_share.Prelude.Int.{pos, negsuc}
use media_share.Strings.{atoi, cut_at, fields, has_suffix, split, trim, trim_space}

atoi_tests :
    (atoi (codes "-12") ≡ some (negsuc 11))
    × (atoi (codes "9223372036854775808") ≡ none)
    × (atoi (codes "+007") ≡ some (pos 7))
    × (atoi (codes "1x") ≡ none)
unfolding atoi
atoi_tests = (refl, refl, refl, refl)

text_tests :
    (trim_space (codes "  a b ") ≡ codes "a b")
    × (split (codes "1::2") b':' ≡ codes "1" ∷ [] ∷ codes "2" ∷ [])
    × (fields (codes " !clear  all ") ≡ codes "!clear" ∷ codes "all" ∷ [])
    × (cut_at (codes "x :y :z") (codes " :") ≡ some (codes "x", codes "y :z"))
    × (trim (codes "/ab/") b'/' ≡ codes "ab")
    × (has_suffix (codes "www.youtube.com") (codes "youtube.com") ≡ true)
unfolding trim_space split fields cut_at trim has_suffix
text_tests = (refl, refl, refl, refl, refl, refl)
