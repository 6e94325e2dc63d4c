-- ===== src/Strings/Cuts.antt =====
-- Where strings.Index finds the separator, and what strings.HasPrefix makes of a text with that prefix.
use media_share.Prelude.{
  ℕ, ◌≡◌, refl, Bool, true, false, not, ◌&&◌, some, List, [], ◌∷◌, ◌++◌, Text, ◌==◌, if◌then◌else◌,
  arith,
}
use media_share.Strings.{
  has_prefix, drop_prefix, trim_prefix, cut_at, split, fields, spaced, words_of, is_space, push,
}

-- The byte does not occur.
abbrev pub Lacks : ℕ → Text → Type 0
Lacks c [] = Unit
Lacks c (d ∷ s) = ((d == c) ≡ false) × Lacks c s

pub Lacks-append : (c : ℕ) (s t : Text) → Lacks c s → Lacks c t → Lacks c (s ++ t)
Lacks-append c [] t hs ht = ht
Lacks-append c (d ∷ s) t hs ht = (hs.0, Lacks-append c s t hs.1 ht)

pub has_prefix-append : (p t : Text) → has_prefix (p ++ t) p ≡ true
unfolding has_prefix
has_prefix-append [] t = ground arith
has_prefix-append (c ∷ p) t = ground (arith, has_prefix-append p t)

drop_prefix-append : (p t : Text) → drop_prefix (p ++ t) p ≡ t
unfolding drop_prefix
drop_prefix-append [] t = refl
drop_prefix-append (c ∷ p) t = drop_prefix-append p t

pub trim_prefix-append : (p t : Text) → trim_prefix (p ++ t) p ≡ t
unfolding trim_prefix
trim_prefix-append p t = ground (arith, has_prefix-append p t, drop_prefix-append p t)

-- A separator whose first byte does not occur before it is found where it stands.
pub cut_at-append :
    (c : ℕ) (p s t : Text) → Lacks c s → cut_at (s ++ ((c ∷ p) ++ t)) (c ∷ p) ≡ some (s, t)
unfolding cut_at
cut_at-append c p [] t h = ground (arith, has_prefix-append (c ∷ p) t, drop_prefix-append (c ∷ p) t)
cut_at-append c p (d ∷ s) t h = ground (arith, cut_at-append c p s t h.1)

pub split-whole : (c : ℕ) (s : Text) → Lacks c s → split s c ≡ s ∷ []
unfolding split
split-whole c [] h = refl
split-whole c (d ∷ s) h = ground (arith, split-whole c s h.1)

pub split-append : (c : ℕ) (s t : Text) → Lacks c s → split (s ++ c ∷ t) c ≡ s ∷ split t c
unfolding split
split-append c [] t h = ground arith
split-append c (d ∷ s) t h = ground (arith, split-append c s t h.1)

-- A text that begins with no space has a first field, which begins as the text.
pub fields-cons :
    (c : ℕ) (s : Text)
    → is_space c ≡ false
    → (w : Text) × (ws : List Text) × (fields (c ∷ s) ≡ (c ∷ w) ∷ ws)
unfolding fields spaced
fields-cons c s h =
    elim (spaced s)
      as (λ ps.
        (w : Text) × (ws : List Text) × (words_of (if is_space c then [] ∷ ps else push c ps)
          ≡ (c ∷ w) ∷ ws)) [ [] ↦ ([], [], rw h) | p ∷ ps ↦ (p, words_of ps, rw h) ]

-- The same as a test, for texts that are given.
abbrev pub lacks : ℕ → Text → Bool
lacks c [] = true
lacks c (d ∷ s) = not (d == c) && lacks c s

pub lacks-Lacks : (c : ℕ) (s : Text) → lacks c s ≡ true → Lacks c s
lacks-Lacks c [] h = tt
lacks-Lacks c (d ∷ s) h = (ground arith, lacks-Lacks c s (ground arith))
