-- ===== src/Strings/Query.antt =====
-- What the program uses of net/url: url.QueryEscape, and url.Values with Set and Encode.
pub mod Laws
use media_share.Prelude.{
  ℕ, ◌+◌, ◌-◌, ◌/◌, ◌%◌, Bool, true, false, ◌&&◌, ◌||◌, List, [], ◌∷◌, ◌++◌, map, Text, codes, same,
  ltb, leb, ◌==◌, if◌then◌else◌,
}
use media_share.Strings.{join}

is_unreserved : ℕ → Bool
is_unreserved c =
    (leb b'a' c && leb c b'z')
    || (leb b'A' c && leb c b'Z')
    || (leb b'0' c && leb c b'9')
    || c == b'-'
    || c == b'_'
    || c == b'.'
    || c == b'~'

upper_hex : ℕ → ℕ
upper_hex d = if ltb d 10 then b'0' + d else b'A' + (d - 10)

escaped : ℕ → Text
unfolding is_unreserved upper_hex
escaped c =
    if is_unreserved c
    then c ∷ []
    else if c == b' '
    then b'+' ∷ []
    else b'%' ∷ upper_hex (c / 16) ∷ upper_hex (c % 16) ∷ []

unfoldable pub query_escape : Text → Text
unfolding escaped
query_escape [] = []
query_escape (c ∷ s) = escaped c ++ query_escape s

-- What url.PathEscape leaves as it is besides.
is_path_byte : ℕ → Bool
is_path_byte c = c == b'$' || c == b'&' || c == b'+' || c == b'=' || c == b':' || c == b'@'

path_escaped : ℕ → Text
unfolding is_unreserved is_path_byte upper_hex
path_escaped c =
    if is_unreserved c || is_path_byte c
    then c ∷ []
    else b'%' ∷ upper_hex (c / 16) ∷ upper_hex (c % 16) ∷ []

unfoldable pub path_escape : Text → Text
unfolding path_escaped
path_escape [] = []
path_escape (c ∷ s) = path_escaped c ++ path_escape s

-- Values with one value for each key, in the order in which Encode writes them.
abbrev pub Values : Type 0
Values = List (Text × Text)

-- the order of Go's strings
less : Text → Text → Bool
less [] [] = false
less [] (b ∷ t) = true
less (a ∷ s) [] = false
less (a ∷ s) (b ∷ t) = ltb a b || a == b && less s t

unfoldable pub set_value : Text → Text → Values → Values
unfolding less
set_value k v [] = (k, v) ∷ []
set_value k v ((j, w) ∷ vs) =
    if same k j
    then (k, v) ∷ vs
    else if less k j
    then (k, v) ∷ (j, w) ∷ vs
    else (j, w) ∷ set_value k v vs

pair : Text × Text → Text
pair (k, v) = query_escape k ++ (codes "=" ++ query_escape v)

unfoldable pub encode : Values → Text
unfolding pair join
encode vs = join (map pair vs) (codes "&")
