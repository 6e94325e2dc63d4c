-- ===== src/Config/Dotenv/Laws.antt =====
-- What a .env file sets, and how a quoted value reads.
use media_share.Prelude.{
  ℕ, ◌≡◌, refl, ap, ◌∙◌, Bool, true, false, ◌&&◌, Option, none, some, List, [], ◌∷◌, ◌++◌,
  append_assoc, Text, codes, lookup, lookup-insert, same, same_iff, All, ◌==◌, arith, if◌then◌else◌,
}
use media_share.Strings.{has_prefix, trim_prefix, trim_space, trim_right, is_space, cut_at}
use media_share.Strings.Cuts.{Lacks, cut_at-append, trim_prefix-append}
use media_share.Strings.Trims.{IsSolid, has_prefix-spaced, trim_space-framed, trim_space-solid}
use media_share.Config.{Env}
use media_share.Config.Dotenv.{
  parse_dot_env_line, trimmed_line, assignment, value_of, unquoted, set_line, set_lines, settable,
  load_dot_env, scan_lines,
}

-- What a line gives the key, if the operating system takes it.
given : Text → Option (Text × Text) → Option Text
given k none = none
given k (some (key, val)) = if same key k && settable key val then some val else none

or_else : Option Text → Option Text → Option Text
or_else none later = later
or_else (some v) later = some v

-- The first line that gives the key a value.
unfoldable pub assigned : Text → List Text → Option Text
unfolding given or_else settable
assigned k [] = none
assigned k (line ∷ lines) = or_else (given k (parse_dot_env_line line)) (assigned k lines)

set_line-lookup :
    (k : Text) (a : Option (Text × Text)) (e : Env)
    → lookup k (set_line a e) ≡ or_else (lookup k e) (given k a)
unfolding set_line given or_else
set_line-lookup k none e = ground arith
set_line-lookup k (some (key, val)) e = ground (arith, lookup-insert key k val e, same_iff key k)

or_else_assoc : (a b c : Option Text) → or_else (or_else a b) c ≡ or_else a (or_else b c)
unfolding or_else
or_else_assoc none b c = refl
or_else_assoc (some v) b c = refl

or_else-none : (a : Option Text) → a ≡ or_else a none
unfolding or_else
or_else-none none = refl
or_else-none (some v) = refl

set_lines-or_else :
    (k : Text) (lines : List Text) (e : Env)
    → lookup k (set_lines lines e) ≡ or_else (lookup k e) (assigned k lines)
unfolding set_lines assigned
set_lines-or_else k [] e = or_else-none (lookup k e)
set_lines-or_else k (line ∷ lines) e =
    set_lines-or_else k lines (set_line (parse_dot_env_line line) e)
    ∙ ap (λ a. or_else a (assigned k lines)) (set_line-lookup k (parse_dot_env_line line) e)
    ∙ or_else_assoc (lookup k e) (given k (parse_dot_env_line line)) (assigned k lines)

elim_or_else : (a b : Option Text) → or_else a b ≡ elim a [ none ↦ b | some v ↦ some v ]
unfolding or_else
elim_or_else none b = refl
elim_or_else (some v) b = refl

-- What the process had for a key stays; where it had nothing, the first of the lines gives the value.
set_lines-lookup :
    (k : Text) (lines : List Text) (e : Env)
    → lookup k (set_lines lines e) ≡ elim (lookup k e) [ none ↦ assigned k lines | some v ↦ some v ]
set_lines-lookup k lines e =
    set_lines-or_else k lines e ∙ elim_or_else (lookup k e) (assigned k lines)

-- The two quotes.
abbrev pub quote : Bool → ℕ
quote true = b'"'
quote false = b'\''

-- A line that gives a quoted value; the line may begin with `export`.
abbrev pub quoted_line : Bool → Bool → ℕ → Text → Text → Text → Text
quoted_line exported double k key val rest =
    if exported
    then codes "export " ++ (k ∷ (key ++ (b'=' ∷ quote double ∷ (val ++ quote double ∷ rest))))
    else k ∷ (key ++ (b'=' ∷ quote double ∷ (val ++ quote double ∷ rest)))

export-Lacks : Lacks b'=' (codes "export")
export-Lacks = (refl, (refl, (refl, (refl, (refl, (refl, tt))))))

hash : (c : ℕ) (s : Text) → (c == b'#') ≡ false → has_prefix (c ∷ s) (codes "#") ≡ false
unfolding has_prefix
hash c s h = rw h

quote-visible : (double : Bool) → is_space (quote double) ≡ false
unfolding is_space
quote-visible true = refl
quote-visible false = refl

-- A value behind a quote of either kind ends at the next quote of that kind.
value_of-quoted :
    (double : Bool) (val rest : Text)
    → Lacks (quote double) val
    → value_of (quote double ∷ (val ++ quote double ∷ rest)) ≡ val
unfolding value_of unquoted
value_of-quoted true [] rest h = ground (arith, cut_at-append b'"' [] [] rest tt)
value_of-quoted true (c ∷ val) rest h = ground (arith, cut_at-append b'"' [] (c ∷ val) rest h)
value_of-quoted false [] rest h = ground (arith, cut_at-append b'\'' [] [] rest tt)
value_of-quoted false (c ∷ val) rest h = ground (arith, cut_at-append b'\'' [] (c ∷ val) rest h)

module _ (double : Bool) (k : ℕ) (key val rest : Text) (solid : All IsSolid (k ∷ key))
    (named : Lacks b'=' (k ∷ key)) (plain : Lacks (quote double) val) where
  abbrev q : ℕ
  q = quote double

  assignment-quoted :
      assignment (cut_at (k ∷ (key ++ (b'=' ∷ q ∷ (val ++ q ∷ rest)))) (codes "="))
      ≡ some (k ∷ key, val)
  unfolding assignment
  assignment-quoted = rw (cut_at-append b'=' [] (k ∷ key) (q ∷ (val ++ q ∷ rest)) named) (
      rw (trim_space-solid (k ∷ key) solid) (
        rw (trim_space-framed q q val rest (quote-visible double) (quote-visible double))
          (rw (value_of-quoted double val (trim_right is_space rest) plain) refl)))

  abbrev body : Text → Text
  body end = k ∷ (key ++ (b'=' ∷ q ∷ (val ++ q ∷ end)))

  regrouped : (end : Text) → (k ∷ ((key ++ (b'=' ∷ q ∷ val)) ++ q ∷ end)) ≡ body end
  regrouped end = simp append_assoc

  body-trimmed : trim_space (body rest) ≡ body (trim_right is_space rest)
  body-trimmed = rw (← regrouped rest) (
      trim_space-framed k q (key ++ (b'=' ∷ q ∷ val)) rest solid.0 (quote-visible double)
      ∙ regrouped (trim_right is_space rest))

  exported-trimmed :
      trim_space (codes "export " ++ body rest) ≡ codes "export " ++ body (trim_right is_space rest)
  exported-trimmed = rw (← regrouped rest) (
      trim_space-framed b'e' q (codes "xport " ++ k ∷ (key ++ (b'=' ∷ q ∷ val))) rest
        (unfold is_space in refl) (quote-visible double)
      ∙ ap (λ t. codes "export " ++ t) (regrouped (trim_right is_space rest)))

  body-unexported : trim_prefix (body rest) (codes "export ") ≡ body rest
  unfolding trim_prefix
  body-unexported = rw (
      has_prefix-spaced b'=' (codes "export") (k ∷ key) (q ∷ (val ++ q ∷ rest)) solid export-Lacks
        (unfold is_space in refl))

-- A line that gives a value in quotes, double or single, reads as its key and the value between the
-- quotes, byte for byte, with or without `export` in front and whatever follows the second quote. The key
-- is not empty, does not begin with a hash sign, and holds neither white space nor an equals sign; the value
-- does not hold the quote that it stands in, but it may hold the other one.
pub parse_dot_env_line-quoted :
    (exported double : Bool) (k : ℕ) (key val rest : Text)
    → (k == b'#') ≡ false
    → All IsSolid (k ∷ key)
    → Lacks b'=' (k ∷ key)
    → Lacks (quote double) val
    → parse_dot_env_line (quoted_line exported double k key val rest) ≡ some (k ∷ key, val)
unfolding parse_dot_env_line trimmed_line
parse_dot_env_line-quoted false double k key val rest mark solid named plain =
    let end = trim_right is_space rest in
    let q = quote double in
    rw (body-trimmed double k key val rest solid named plain) (
      rw (body-unexported double k key val end solid named plain) (
        ground (
          arith,
          assignment-quoted double k key val end solid named plain,
          hash k (key ++ (b'=' ∷ q ∷ (val ++ q ∷ end))) mark,
        )))
parse_dot_env_line-quoted true double k key val rest mark solid named plain =
    let end = trim_right is_space rest in
    let q = quote double in
    rw (exported-trimmed double k key val rest solid named plain) (
      rw (trim_prefix-append (codes "export ") (k ∷ (key ++ (b'=' ∷ q ∷ (val ++ q ∷ end))))) (
        ground (
          arith,
          assignment-quoted double k key val end solid named plain,
          hash b'e' (codes "xport " ++ (k ∷ (key ++ (b'=' ∷ q ∷ (val ++ q ∷ end))))) refl,
        )))

-- Behind the loading of a .env file that opens, a key has the value that the process had for it, and
-- where it had none, that of the first line of the file that gives it one.
pub load_dot_env-lookup :
    (k text : Text) (e : Env)
    → lookup k (load_dot_env (some text) e)
      ≡ elim (lookup k e) [ none ↦ assigned k (scan_lines text) | some v ↦ some v ]
unfolding load_dot_env
load_dot_env-lookup k text e = set_lines-lookup k (scan_lines text) e
