-- ===== src/Config/Tests.antt =====
-- The lines of dotenv_test.go, and a file that sets what is not set.
use media_share.Prelude.{
  ◌≡◌, refl, true, false, Option, none, some, [], ◌∷◌, ◌++◌, Text, codes, lookup,
}
use media_share.Strings.{is_space}
use media_share.Strings.Cuts.{lacks-Lacks}
use media_share.Config.{Env, split_ext}
use media_share.Config.Dotenv.{parse_dot_env_line, load_dot_env, scan_lines}
use media_share.Config.Dotenv.Laws.{
  assigned, quoted_line, load_dot_env-lookup, parse_dot_env_line-quoted,
}

exported_test : parse_dot_env_line (codes "  export TOKEN=abc ") ≡ some (codes "TOKEN", codes "abc")
unfolding parse_dot_env_line media_share.Strings.trim_space media_share.Strings.has_prefix
    media_share.Strings.cut_at media_share.Strings.trim_prefix
exported_test = refl

single_test :
    parse_dot_env_line (codes "NAME='single quoted'") ≡ some (codes "NAME", codes "single quoted")
unfolding parse_dot_env_line media_share.Strings.trim_space media_share.Strings.has_prefix
    media_share.Strings.cut_at media_share.Strings.trim_prefix
single_test = refl

trailing_comment_test :
    parse_dot_env_line (codes "URL=http://x  # trailing comment")
    ≡ some (codes "URL", codes "http://x")
unfolding parse_dot_env_line media_share.Strings.trim_space media_share.Strings.has_prefix
    media_share.Strings.cut_at media_share.Strings.trim_prefix
trailing_comment_test = refl

empty_test : parse_dot_env_line (codes "EMPTY=") ≡ some (codes "EMPTY", [])
unfolding parse_dot_env_line media_share.Strings.trim_space media_share.Strings.has_prefix
    media_share.Strings.cut_at media_share.Strings.trim_prefix
empty_test = refl

comment_test : parse_dot_env_line (codes "# a comment") ≡ none
unfolding parse_dot_env_line media_share.Strings.trim_space media_share.Strings.has_prefix
comment_test = refl

no_equals_test : parse_dot_env_line (codes "noequals") ≡ none
unfolding parse_dot_env_line media_share.Strings.trim_space media_share.Strings.has_prefix
    media_share.Strings.cut_at media_share.Strings.trim_prefix
no_equals_test = refl

no_value_test : parse_dot_env_line (codes "=novalue") ≡ none
unfolding parse_dot_env_line media_share.Strings.trim_space media_share.Strings.has_prefix
    media_share.Strings.cut_at media_share.Strings.trim_prefix
no_value_test = refl

split_ext_test : split_ext (codes "mp4, .WebM,,") ≡ codes ".mp4" ∷ codes ".webm" ∷ []
unfolding split_ext media_share.Strings.split media_share.Strings.trim_space
    media_share.Strings.to_lower media_share.Strings.has_prefix
split_ext_test = refl

parse_dot_env_line-quoted_example :
    parse_dot_env_line
      (quoted_line true false b'N' (codes "AME") (codes "The \"Cool\" #1") (codes " # the name"))
    ≡ some (codes "NAME", codes "The \"Cool\" #1")
parse_dot_env_line-quoted_example =
    parse_dot_env_line-quoted true false b'N' (codes "AME") (codes "The \"Cool\" #1")
      (codes " # the name") refl (unfold is_space in (refl, (refl, (refl, (refl, tt)))))
      (refl, (refl, (refl, (refl, tt)))) (lacks-Lacks b'\'' (codes "The \"Cool\" #1") refl)

abbrev process : Env
process = (codes "OVERRIDDEN", codes "fromenv") ∷ []

abbrev file : Text
file = codes "FROM_FILE=filevalue\nOVERRIDDEN=fromfile\n# comment\n"

override_test :
    lookup (codes "OVERRIDDEN") (load_dot_env (some file) process) ≡ some (codes "fromenv")
unfolding load_dot_env scan_lines lookup media_share.Config.Dotenv.set_lines
    media_share.Strings.split parse_dot_env_line media_share.Strings.trim_space
    media_share.Strings.has_prefix media_share.Strings.cut_at media_share.Strings.trim_prefix
    media_share.Prelude.same media_share.Strings.contains media_share.Prelude.insert
    media_share.Prelude.delete
override_test = refl

load_dot_env-lookup_example :
    lookup (codes "FROM_FILE") (load_dot_env (some file) process)
    ≡ elim (lookup (codes "FROM_FILE") process) [
      | none ↦ assigned (codes "FROM_FILE") (scan_lines file)
      | some v ↦ some v
    ]
load_dot_env-lookup_example = load_dot_env-lookup (codes "FROM_FILE") file process
