-- ===== src/Server/Forms.antt =====
-- internal/server/handlers_submit.go: the small parsers of the submit form. An int is 64 bits wide.
use media_share.Prelude.{
  suc, zero, ℕ, ◌-◌, ◌≤◌, Bool, not, ◌&&◌, Option, none, some, List, [], ◌∷◌, ◌++◌, Text, codes,
  is_empty, length, ltb, ◌==◌, if◌then◌else◌, arith,
}
use media_share.Prelude.Int.{ℤ, pos, negsuc, ◌+ℤ◌, scale, int64}
use media_share.Strings.{trim_space, trim_right, has_suffix, contains, split, atoi}

-- Parts are separated by a colon; the sum wraps around as the code's int does.
start_total : ℤ → List Text → Option ℤ
start_total total [] = some total
start_total total (p ∷ ps) = elim (atoi (trim_space p)) [
  | some (pos n) ↦ start_total (int64 (int64 (scale 60 total) +ℤ pos n)) ps
  | some (negsuc n) ↦ none
  | none ↦ none
]

not_negative : Option ℤ → Option ℤ
not_negative (some (pos n)) = some (pos n)
not_negative _ = none

trimmed_start : Text → Option ℤ
unfolding start_total not_negative
trimmed_start s =
    if is_empty s
    then none
    else if contains s (codes ":")
    then start_total (pos 0) (split s 58)
    else not_negative (atoi s)

unfoldable pub parse_start : Text → Option ℤ
unfolding trimmed_start
parse_start s = trimmed_start (trim_space s)

capped : ℕ → Option ℤ → ℕ
capped default (some (pos n)) = if ltb 3600 n then 3600 else n
capped default (some (negsuc n)) = default
capped default none = default

trimmed_duration : ℕ → Text → ℕ
unfolding capped
trimmed_duration default s = if is_empty s then default else capped default (atoi s)

unfoldable pub clamp_duration : Text → ℕ → ℕ
unfolding trimmed_duration
clamp_duration s default = trimmed_duration default (trim_space s)

-- No requested length is above an hour.
pub clamp_duration-le : (s : Text) (default : ℕ) → default ≤ 3600 → clamp_duration s default ≤ 3600
unfolding clamp_duration trimmed_duration capped
clamp_duration-le s default h = ground arith

has_slash : Text → Bool
has_slash s = contains s (codes "/")

-- `filepath.Ext`: from the last dot of the last element.
unfoldable pub ext : Text → Text
unfolding has_slash
ext [] = []
ext (b ∷ bs) =
    let rest = ext bs in if is_empty rest && b == 46 && not (has_slash bs) then b ∷ bs else rest

last_part : Text → Text
unfolding has_slash
last_part [] = []
last_part (b ∷ bs) =
    let rest = last_part bs in if has_slash bs then rest else if b == 47 then bs else b ∷ bs

or_root : Text → Text
or_root [] = codes "/"
or_root (b ∷ bs) = b ∷ bs

-- `filepath.Base`
unfoldable pub base : Text → Text
unfolding last_part or_root
base [] = codes "."
base (b ∷ bs) = or_root (last_part (trim_right (λ c. c == 47) (b ∷ bs)))

take : ℕ → Text → Text
take zero s = []
take (suc n) [] = []
take (suc n) (b ∷ s) = b ∷ take n s

trim_suffix : Text → Text → Text
unfolding take
trim_suffix s suffix = if has_suffix s suffix then take (length s - length suffix) s else s

shortened : Text → Text → Text
unfolding take
shortened uploaded_at name =
    if is_empty name
    then codes "Upload " ++ uploaded_at
    else if ltb 60 (length name)
    then take 60 name
    else name

-- `uploaded_at` is the time of the call as "15:04:05".
unfoldable pub orig_title : Text → Text → Text
unfolding trim_suffix shortened
orig_title uploaded_at filename =
    shortened uploaded_at (trim_space (trim_suffix (base filename) (ext (base filename))))
