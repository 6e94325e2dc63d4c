-- ===== src/Strings/Query/Laws.antt =====
-- What a server reads in an encoded query.
use media_share.Prelude.{
  ℕ, ◌+◌, ◌-◌, ◌*◌, ◌/◌, ◌%◌, ◌<◌, ◌≡◌, refl, ap, ◌∙◌, Option, none, some, [], ◌∷◌, ◌++◌, map, Text,
  codes, All, ltb, ◌==◌, if◌then◌else◌, arith, Bool-cases, inl, inr,
}
use media_share.Strings.{cut_at, split, join}
use media_share.Strings.Cuts.{Lacks, Lacks-append, cut_at-append, split-append, split-whole}
use media_share.Strings.Query.{
  is_unreserved, upper_hex, escaped, query_escape, Values, pair, encode,
}

unhex : ℕ → ℕ
unhex h = if ltb h b'A' then h - b'0' else h - b'A' + 10

-- url.QueryUnescape of a text that is escaped well.
unfoldable mutual
  unfolding unhex

  pub query_unescape : Text → Text
  query_unescape [] = []
  query_unescape (c ∷ s) =
      let coded = unescape_pair s in
      let plain = query_unescape s in
      if c == b'%' then coded else if c == b'+' then b' ' ∷ plain else c ∷ plain

  pub unescape_pair : Text → Text
  unescape_pair [] = []
  unescape_pair (d ∷ []) = []
  unescape_pair (d ∷ e ∷ s) = (unhex d * 16 + unhex e) ∷ query_unescape s

unhex-upper_hex : (d : ℕ) → d < 16 → unhex (upper_hex d) ≡ d
unfolding unhex upper_hex
unhex-upper_hex d h = ground arith

unescape-escaped :
    (c : ℕ) (s : Text) → c < 256 → query_unescape (escaped c ++ s) ≡ c ∷ query_unescape s
unfolding query_unescape escaped
unescape-escaped c s h = elim (Bool-cases (is_unreserved c)) [
  | inl plain ↦ rw plain (unfold is_unreserved in ground arith)
  | inr other ↦
      let high : c / 16 < 16 = omega arith in
      let low : c % 16 < 16 = omega arith in
      rw other (ground (arith, unhex-upper_hex (c / 16) high, unhex-upper_hex (c % 16) low))
]

abbrev pub IsByte : ℕ → Type 0
IsByte c = c < 256

query_unescape-query_escape : (s : Text) → All IsByte s → query_unescape (query_escape s) ≡ s
unfolding query_escape
query_unescape-query_escape [] h = unfold query_unescape in refl
query_unescape-query_escape (c ∷ s) h =
    unescape-escaped c (query_escape s) h.0 ∙ ap (λ t. c ∷ t) (query_unescape-query_escape s h.1)

-- The separators of a query do not occur in what is escaped.
escaped-Lacks : (c : ℕ) → c < 256 → Lacks b'&' (escaped c) × Lacks b'=' (escaped c)
unfolding escaped
escaped-Lacks c h = elim (Bool-cases (is_unreserved c)) [
  | inl plain ↦ rw plain (unfold is_unreserved in (ground arith, ground arith))
  | inr other ↦ rw other (unfold upper_hex in (ground arith, ground arith))
]

query_escape-Lacks :
    (s : Text) → All IsByte s → Lacks b'&' (query_escape s) × Lacks b'=' (query_escape s)
unfolding query_escape
query_escape-Lacks [] h = (tt, tt)
query_escape-Lacks (c ∷ s) h =
    let one = escaped-Lacks c h.0 in
    let more = query_escape-Lacks s h.1 in
    (
      Lacks-append b'&' (escaped c) (query_escape s) one.0 more.0,
      Lacks-append b'=' (escaped c) (query_escape s) one.1 more.1,
    )

-- Reads the pairs of a query.
pair_in : Option (Text × Text) → Text × Text
pair_in none = ([], [])
pair_in (some (k, v)) = (query_unescape k, query_unescape v)

read_pair : Text → Text × Text
read_pair p = pair_in (cut_at p (codes "="))

unfoldable pub parse_query : Text → Values
unfolding read_pair pair_in
parse_query q = map read_pair (split q b'&')

abbrev pub AreBytes : Text × Text → Type 0
AreBytes (k, v) = All IsByte k × All IsByte v

read_pair-pair : (kv : Text × Text) → AreBytes kv → read_pair (pair kv) ≡ kv
unfolding read_pair pair
read_pair-pair (k, v) h =
    rw (cut_at-append b'=' [] (query_escape k) (query_escape v) (query_escape-Lacks k h.0).1) (
      unfold pair_in in
      ground (arith, query_unescape-query_escape k h.0, query_unescape-query_escape v h.1))

pair-Lacks : (kv : Text × Text) → AreBytes kv → Lacks b'&' (pair kv)
unfolding pair
pair-Lacks (k, v) h =
    Lacks-append b'&' (query_escape k) (codes "=" ++ query_escape v) (query_escape-Lacks k h.0).0
      (refl, (query_escape-Lacks v h.1).0)

-- What was set is what is read.
pub parse_query-encode :
    (kv : Text × Text) (vs : Values)
    → All AreBytes (kv ∷ vs)
    → parse_query (encode (kv ∷ vs)) ≡ kv ∷ vs
unfolding parse_query encode join
parse_query-encode kv [] h =
    rw (split-whole b'&' (pair kv) (pair-Lacks kv h.0)) (ap (λ p. p ∷ []) (read_pair-pair kv h.0))
parse_query-encode kv (l ∷ vs) h =
    rw (split-append b'&' (pair kv) (join (map pair (l ∷ vs)) (codes "&")) (pair-Lacks kv h.0))
      (ground (arith, read_pair-pair kv h.0, parse_query-encode l vs h.1))
