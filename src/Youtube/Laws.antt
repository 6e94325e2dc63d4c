-- ===== src/Youtube/Laws.antt =====
-- What the link parser accepts, and when the time arithmetic is exact.
use media_share.Prelude.{
  ℕ, ◌+◌, ◌-◌, ◌*◌, ◌^◌, ◌<◌, ◌≤◌, ◌≡◌, refl, true, Option, none, some, List, [], ◌∷◌, Text, arith,
  inl, inr, Bool-cases,
}
use media_share.Prelude.Int.{ℤ, pos, negsuc, ◌+ℤ◌, int64, scale, int64_of_small}
use media_share.Strings.{atoi, trim_space, split}
use media_share.Youtube.{
  Url, is_youtube_id, colon_total, parse_youtube, located, accepted, with_scheme, parse_colon_time,
}

accepted-id :
    (u : Url) (o : Option Text) (id : Text) (start : ℤ)
    → accepted u o ≡ some (id, start)
    → is_youtube_id id ≡ true
unfolding accepted
accepted-id u none id start e = cc
accepted-id u (some x) id start e = ground arith

located-id :
    (o : Option Url) (id : Text) (start : ℤ)
    → located o ≡ some (id, start)
    → is_youtube_id id ≡ true
unfolding located
located-id none id start e = cc
located-id (some u) id start e = accepted-id u _ id start e

-- Whatever url.Parse makes of a link, an accepted id is eleven characters of the id's alphabet.
pub parse_youtube-id :
    (parse_url : Text → Option Url) (raw id : Text) (start : ℤ)
    → parse_youtube parse_url raw ≡ some (id, start)
    → is_youtube_id id ≡ true
unfolding parse_youtube
parse_youtube-id parse_url raw id start e = elim (Bool-cases (is_youtube_id (trim_space raw))) [
  | inl bare ↦ ground arith
  | inr link ↦ located-id (parse_url (with_scheme (trim_space raw))) id start (ground arith)
]

-- A bare id is accepted whole, with no start, and url.Parse is not asked.
parse_youtube-bare :
    (parse_url : Text → Option Url) (raw : Text)
    → is_youtube_id (trim_space raw) ≡ true
    → parse_youtube parse_url raw ≡ some (trim_space raw, pos 0)
unfolding parse_youtube is_youtube_id
parse_youtube-bare parse_url raw e = ground arith

-- The places of a time, as numbers.
abbrev pub with_place : Option ℤ → Option (List ℕ) → Option (List ℕ)
with_place (some (pos n)) (some ns) = some (n ∷ ns)
with_place _ _ = none

abbrev pub place_values : List Text → Option (List ℕ)
place_values [] = some []
place_values (p ∷ ps) = with_place (atoi p) (place_values ps)

-- The value in base 60, without a bound.
abbrev pub base_60 : ℕ → List ℕ → ℕ
base_60 acc [] = acc
base_60 acc (n ∷ ns) = base_60 (60 * acc + n) ns

le-base_60 : (acc : ℕ) (ns : List ℕ) → acc ≤ base_60 acc ns
le-base_60 acc [] = omega arith
le-base_60 acc (n ∷ ns) = omega (arith, le-base_60 (60 * acc + n) ns)

step_exact :
    (acc n : ℕ) → 60 * acc + n < 2 ^ 63 → int64 (scale 60 (pos acc) +ℤ pos n) ≡ pos (60 * acc + n)
unfolding scale ◌+ℤ◌
step_exact acc n h = ground (arith, int64_of_small (60 * acc + n) h)

with_place_inv :
    (o : Option ℤ) (r : Option (List ℕ)) (ns : List ℕ)
    → with_place o r ≡ some ns
    → (n : ℕ) × (ms : List ℕ) × (o ≡ some (pos n)) × (r ≡ some ms) × (ns ≡ n ∷ ms)
with_place_inv (some (pos n)) (some ms) ns e = (n, ms, refl, refl, ground arith)
with_place_inv (some (pos n)) none ns e = cc
with_place_inv (some (negsuc n)) r ns e = cc
with_place_inv none r ns e = cc

colon_total_exact :
    (acc : ℕ) (ps : List Text) (ns : List ℕ)
    → place_values ps ≡ some ns
    → base_60 acc ns < 2 ^ 63
    → colon_total (pos acc) ps ≡ pos (base_60 acc ns)
unfolding colon_total
colon_total_exact acc [] ns e h = ground arith
colon_total_exact acc (p ∷ ps) ns e h =
    let (n, ms, first, rest, all) = with_place_inv (atoi p) (place_values ps) ns e in
    let fits : base_60 (60 * acc + n) ms < 2 ^ 63 = rw all at h in
    ground (
      arith,
      le-base_60 (60 * acc + n) ms,
      step_exact acc n,
      colon_total_exact (60 * acc + n) ps ms rest fits,
    )

-- A time in places, each a number that is not negative, is its value in base 60 wherever that fits in
-- an int.
parse_colon_time_exact :
    (s : Text) (ns : List ℕ)
    → place_values (split s b':') ≡ some ns
    → base_60 0 ns < 2 ^ 63
    → parse_colon_time s ≡ pos (base_60 0 ns)
unfolding parse_colon_time
parse_colon_time_exact s ns e h = colon_total_exact 0 (split s b':') ns e h

overflow_step :
    (n m : ℕ)
    → n < 2 ^ 63
    → m < 2 ^ 63
    → 2 ^ 63 ≤ 60 * n + m
    → 60 * n + m < 2 ^ 64
    → int64 (scale 60 (pos n) +ℤ pos m) ≡ negsuc (2 ^ 64 - 1 - (60 * n + m))
unfolding scale ◌+ℤ◌ int64
overflow_step n m hn hm lo hi = ground arith

module _ (n m : ℕ) (hn : n < 2 ^ 63) (hm : m < 2 ^ 63) (lo : 2 ^ 63 ≤ 60 * n + m)
    (hi : 60 * n + m < 2 ^ 64) where
  last_place :
      (q : Text) (rest : List Text)
      → place_values (q ∷ rest) ≡ some (m ∷ [])
      → colon_total (pos n) (q ∷ rest) ≡ negsuc (2 ^ 64 - 1 - (60 * n + m))
  unfolding colon_total
  last_place q [] e =
      let (k, ms, first, rest, all) = with_place_inv (atoi q) (some []) (m ∷ []) e in
      ground (arith, overflow_step n m hn hm lo hi)
  last_place q (r ∷ rest) e =
      let (k, ms, first, more, all) =
        with_place_inv (atoi q) (place_values (r ∷ rest)) (m ∷ []) e in
      let (k', ms', first', more', all') = with_place_inv (atoi r) (place_values rest) ms more in
      ground arith

  two_places :
      (ps : List Text)
      → place_values ps ≡ some (n ∷ m ∷ [])
      → colon_total (pos 0) ps ≡ negsuc (2 ^ 64 - 1 - (60 * n + m))
  unfolding colon_total
  two_places [] e = cc
  two_places (p ∷ []) e =
      let (k, ms, first, rest, all) = with_place_inv (atoi p) (some []) (n ∷ m ∷ []) e in
      ground arith
  two_places (p ∷ q ∷ rest) e =
      let (k, ms, first, more, all) =
        with_place_inv (atoi p) (place_values (q ∷ rest)) (n ∷ m ∷ []) e in
      let second : place_values (q ∷ rest) ≡ some (m ∷ []) = ground arith in
      ground (arith, step_exact 0 n, last_place q rest second)

  -- Minutes and seconds whose value passes the largest int, but not by more than 2^63, give a negative
  -- time: the checks of the parts do not see the overflow of the sum.
  parse_colon_time_overflow :
      (s : Text)
      → place_values (split s b':') ≡ some (n ∷ m ∷ [])
      → parse_colon_time s ≡ negsuc (2 ^ 64 - 1 - (60 * n + m))
  unfolding parse_colon_time
  parse_colon_time_overflow s e = two_places (split s b':') e
