-- ===== src/Config/Dotenv.antt =====
-- internal/config/dotenv.go: the settings in a .env file.
pub mod Laws
use media_share.Prelude.{
  ℕ, Bool, true, false, not, ◌&&◌, ◌||◌, Option, none, some, List, [], ◌∷◌, Text, codes, Assoc,
  lookup, insert, is_empty, is_some, length, ltb, ◌==◌, if◌then◌else◌,
}
use media_share.Strings.{has_prefix, trim_prefix, trim_space, cut_at, split, contains}
use media_share.Config.{Env}

unquoted : Text → Option (Text × Text) → Text
unquoted inside none = inside
unquoted inside (some (before, after)) = before

uncommented : Text → Option (Text × Text) → Text
uncommented val none = val
uncommented val (some (before, after)) = trim_space before

-- A value of two bytes or more that begins with a quote is taken up to the next one.
value_of : Text → Text
unfolding unquoted uncommented
value_of [] = []
value_of (q ∷ []) = uncommented (q ∷ []) (cut_at (q ∷ []) (codes " #"))
value_of (q ∷ c ∷ s) =
    if q == b'"' || q == b'\''
    then unquoted (c ∷ s) (cut_at (c ∷ s) (q ∷ []))
    else uncommented (q ∷ c ∷ s) (cut_at (q ∷ c ∷ s) (codes " #"))

assignment : Option (Text × Text) → Option (Text × Text)
unfolding value_of
assignment none = none
assignment (some (before, after)) =
    if is_empty before
    then none
    else if is_empty (trim_space before)
    then none
    else some (trim_space before, value_of (trim_space after))

trimmed_line : Text → Option (Text × Text)
unfolding assignment
trimmed_line line =
    if is_empty line || has_prefix line (codes "#")
    then none
    else assignment (cut_at (trim_prefix line (codes "export ")) (codes "="))

unfoldable pub parse_dot_env_line : Text → Option (Text × Text)
unfolding trimmed_line
parse_dot_env_line line = trimmed_line (trim_space line)

has_byte : ℕ → Text → Bool
has_byte b s = contains s (b ∷ [])

-- What os.Setenv refuses: an empty key, one with an equals sign, and a zero byte.
settable : Text → Text → Bool
unfolding has_byte
settable key val =
    not (is_empty key) && not (has_byte b'=' key) && not (has_byte 0 key) && not (has_byte 0 val)

set_line : Option (Text × Text) → Env → Env
unfolding settable
set_line none e = e
set_line (some (key, val)) e =
    if is_some (lookup key e) then e else if settable key val then insert key val e else e

unfoldable pub set_lines : List Text → Env → Env
unfolding set_line
set_lines [] e = e
set_lines (line ∷ lines) e = set_lines lines (set_line (parse_dot_env_line line) e)

drop_cr : Text → Text
drop_cr [] = []
drop_cr (c ∷ []) = if c == 13 then [] else c ∷ []
drop_cr (c ∷ d ∷ s) = c ∷ drop_cr (d ∷ s)

-- The lines of bufio.Scanner: up to the first of 64 KB or more, and no empty one at the end.
scanned : List Text → List Text
unfolding drop_cr
scanned [] = []
scanned ([] ∷ []) = []
scanned (line ∷ lines) =
    let rest = scanned lines in if ltb (length line) 65536 then drop_cr line ∷ rest else []

unfoldable pub scan_lines : Text → List Text
unfolding scanned
scan_lines text = scanned (split text b'\n')

-- The file of ENV_FILE, or .env, has been opened and read; `none` is one that could not be opened.
unfoldable pub load_dot_env : Option Text → Env → Env
load_dot_env none e = e
load_dot_env (some text) e = set_lines (scan_lines text) e
