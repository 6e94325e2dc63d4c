-- ===== src/Strings.antt =====
-- What the program uses of Go's packages strings and strconv, on the bytes of a string. Case and white
-- space are those of ASCII.
mod Tests
pub mod Cuts
pub mod Query
pub mod Trims
use media_share.Prelude.{
  ℕ, zero, suc, ◌+◌, ◌-◌, ◌*◌, ◌/◌, ◌%◌, ◌^◌, ◌≡◌, refl, Bool, true, false, not, ◌&&◌, ◌||◌, Option,
  none, some, List, [], ◌∷◌, ◌++◌, Text, codes, same, is_empty, ◌==◌, leb, ltb, if◌then◌else◌,
  arith,
}
use media_share.Prelude.Int.{ℤ, pos, negsuc, sub_ℕ}

-- strings.ToLower
lower : ℕ → ℕ
lower c = if leb b'A' c && leb c b'Z' then c + 32 else c

unfoldable pub to_lower : Text → Text
unfolding lower
to_lower [] = []
to_lower (c ∷ s) = lower c ∷ to_lower s

-- strings.ToUpper
upper : ℕ → ℕ
upper c = if leb b'a' c && leb c b'z' then c - 32 else c

unfoldable pub to_upper : Text → Text
unfolding upper
to_upper [] = []
to_upper (c ∷ s) = upper c ∷ to_upper s

-- strings.HasPrefix, strings.TrimPrefix
unfoldable pub has_prefix : Text → Text → Bool
has_prefix s [] = true
has_prefix [] (p ∷ ps) = false
has_prefix (c ∷ s) (p ∷ ps) = c == p && has_prefix s ps

drop_prefix : Text → Text → Text
drop_prefix s [] = s
drop_prefix [] (p ∷ ps) = []
drop_prefix (c ∷ s) (p ∷ ps) = drop_prefix s ps

unfoldable pub trim_prefix : Text → Text → Text
unfolding has_prefix drop_prefix
trim_prefix s p = if has_prefix s p then drop_prefix s p else s

-- strings.Contains, and strings.Index as the text before and behind the first occurrence
unfoldable pub contains : Text → Text → Bool
unfolding has_prefix
contains [] p = is_empty p
contains (c ∷ s) p = has_prefix (c ∷ s) p || contains s p

abbrev prepend : ℕ → Option (Text × Text) → Option (Text × Text)
prepend c none = none
prepend c (some (a, b)) = some (c ∷ a, b)

unfoldable pub cut_at : Text → Text → Option (Text × Text)
unfolding has_prefix drop_prefix
cut_at [] p = if is_empty p then some ([], []) else none
cut_at (c ∷ s) p =
    let later = prepend c (cut_at s p) in
    if has_prefix (c ∷ s) p then some ([], drop_prefix (c ∷ s) p) else later

-- strings.HasSuffix
unfoldable pub has_suffix : Text → Text → Bool
unfolding same
has_suffix [] p = is_empty p
has_suffix (c ∷ s) p = same (c ∷ s) p || has_suffix s p

unfoldable pub is_space : ℕ → Bool
is_space c = leb 9 c && leb c 13 || c == 32

-- Drops the characters that fit at the front; at both ends.
trim_left : (ℕ → Bool) → Text → Text
trim_left p [] = []
trim_left p (c ∷ s) = let rest = trim_left p s in if p c then rest else c ∷ s

abbrev end_with : (ℕ → Bool) → ℕ → Text → Text
end_with p c [] = if p c then [] else c ∷ []
end_with p c (d ∷ s) = c ∷ d ∷ s

pub trim_right : (ℕ → Bool) → Text → Text
trim_right p [] = []
trim_right p (c ∷ s) = end_with p c (trim_right p s)

-- strings.TrimSpace
unfoldable pub trim_space : Text → Text
unfolding is_space trim_left trim_right
trim_space s = trim_right is_space (trim_left is_space s)

-- strings.Trim with one character
unfoldable pub trim : Text → ℕ → Text
unfolding trim_left trim_right
trim s c = trim_right (λ d. d == c) (trim_left (λ d. d == c) s)

abbrev pub push : ℕ → List Text → List Text
push c [] = (c ∷ []) ∷ []
push c (p ∷ ps) = (c ∷ p) ∷ ps

-- strings.Split at one character
unfoldable pub split : Text → ℕ → List Text
split [] sep = [] ∷ []
split (c ∷ s) sep = let rest = split s sep in if c == sep then [] ∷ rest else push c rest

-- strings.Fields
abbrev words_of : List Text → List Text
words_of [] = []
words_of ([] ∷ ws) = words_of ws
words_of ((c ∷ w) ∷ ws) = (c ∷ w) ∷ words_of ws

spaced : Text → List Text
spaced [] = [] ∷ []
spaced (c ∷ s) = let rest = spaced s in if is_space c then [] ∷ rest else push c rest

unfoldable pub fields : Text → List Text
unfolding spaced is_space
fields s = words_of (spaced s)

-- strconv.Atoi on a 64-bit machine: a sign, at least one digit, and the range of int64.
digits_value : ℕ → Text → Option ℕ
digits_value n [] = some n
digits_value n (c ∷ s) =
    let rest = digits_value (n * 10 + (c - b'0')) s in
    if leb b'0' c && leb c b'9' then rest else none

abbrev in_range : Bool → Option ℕ → Option ℤ
in_range minus none = none
in_range false (some n) = if ltb n (2 ^ 63) then some (pos n) else none
in_range true (some n) = if leb n (2 ^ 63) then some (sub_ℕ 0 n) else none

signed : Bool → Text → Option ℤ
unfolding digits_value
signed minus [] = none
signed minus (c ∷ s) = in_range minus (digits_value 0 (c ∷ s))

unfoldable pub atoi : Text → Option ℤ
unfolding signed
atoi [] = none
atoi (c ∷ s) =
    if c == b'-' then signed true s else if c == b'+' then signed false s else signed false (c ∷ s)

-- strconv.Itoa of a number that is not negative; n + 1 digits are enough.
digits : ℕ → ℕ → Text → Text
digits zero n acc = acc
digits (suc fuel) n acc =
    let rest = digits fuel (n / 10) ((b'0' + n % 10) ∷ acc) in
    if ltb n 10 then (b'0' + n) ∷ acc else rest

unfoldable pub itoa : ℕ → Text
unfolding digits
itoa n = digits (suc n) n []

-- strings.Join
unfoldable pub join : List Text → Text → Text
join [] sep = []
join (s ∷ []) sep = s
join (s ∷ t ∷ ss) sep = s ++ (sep ++ join (t ∷ ss) sep)
