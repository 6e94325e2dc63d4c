-- ===== src/Strings/Trims.antt =====
-- What strings.TrimSpace keeps.
use media_share.Prelude.{ℕ, ◌≡◌, refl, is_empty, Bool, false, [], ◌∷◌, ◌++◌, Text, All, arith}
use media_share.Strings.{
  lower, to_lower, trim_left, trim_right, trim_space, end_with, is_space, has_prefix,
}
use media_share.Strings.Cuts.{Lacks}

abbrev pub IsSolid : ℕ → Type 0
IsSolid c = is_space c ≡ false

end_with-append :
    (p : ℕ → Bool) (x c : ℕ) (a s : Text) → end_with p x (a ++ c ∷ s) ≡ x ∷ (a ++ c ∷ s)
end_with-append p x c [] s = refl
end_with-append p x c (y ∷ a) s = refl

end_with-kept : (p : ℕ → Bool) (c : ℕ) (s : Text) → p c ≡ false → end_with p c s ≡ c ∷ s
end_with-kept p c [] h = rw h
end_with-kept p c (d ∷ s) h = refl

-- Only what stands behind the last byte that is kept is trimmed.
trim_right-append :
    (p : ℕ → Bool) (a : Text) (c : ℕ) (rest : Text)
    → p c ≡ false
    → trim_right p (a ++ c ∷ rest) ≡ a ++ c ∷ trim_right p rest
unfolding trim_right
trim_right-append p [] c rest h = end_with-kept p c (trim_right p rest) h
trim_right-append p (x ∷ a) c rest h =
    rw (trim_right-append p a c rest h) (end_with-append p x c a (trim_right p rest))

pub trim_space-framed :
    (c d : ℕ) (mid rest : Text)
    → IsSolid c
    → IsSolid d
    → trim_space (c ∷ (mid ++ d ∷ rest)) ≡ c ∷ (mid ++ d ∷ trim_right is_space rest)
unfolding trim_space trim_left
trim_space-framed c d mid rest hc hd = rw hc (trim_right-append is_space (c ∷ mid) d rest hd)

trim_right-solid : (s : Text) → All IsSolid s → trim_right is_space s ≡ s
unfolding trim_right
trim_right-solid [] h = refl
trim_right-solid (c ∷ s) h = rw (trim_right-solid s h.1) (end_with-kept is_space c s h.0)

pub trim_space-solid : (s : Text) → All IsSolid s → trim_space s ≡ s
unfolding trim_space trim_left
trim_space-solid [] h = unfold trim_right in refl
trim_space-solid (c ∷ s) h = rw (h.0) (trim_right-solid (c ∷ s) h)

-- A prefix that ends in a space is none of a text whose first space stands behind a byte that the prefix
-- lacks.
pub has_prefix-spaced :
    (b : ℕ) (p s t : Text)
    → All IsSolid s
    → Lacks b p
    → IsSolid b
    → has_prefix (s ++ b ∷ t) (p ++ b' ' ∷ []) ≡ false
unfolding has_prefix is_space
has_prefix-spaced b [] [] t hs hp hb = ground arith
has_prefix-spaced b [] (c ∷ s) t hs hp hb = ground arith
has_prefix-spaced b (q ∷ p) [] t hs hp hb = ground arith
has_prefix-spaced b (q ∷ p) (c ∷ s) t hs hp hb =
    ground (arith, has_prefix-spaced b p s t hs.1 hp.1 hb)

lower-IsSolid : (c : ℕ) → IsSolid c → IsSolid (lower c)
unfolding lower is_space
lower-IsSolid c h = ground arith

pub to_lower-IsSolid : (s : Text) → All IsSolid s → All IsSolid (to_lower s)
unfolding to_lower
to_lower-IsSolid [] h = tt
to_lower-IsSolid (c ∷ s) h = (lower-IsSolid c h.0, to_lower-IsSolid s h.1)

pub to_lower-there : (s : Text) → is_empty s ≡ false → is_empty (to_lower s) ≡ false
unfolding to_lower
to_lower-there [] h = h
to_lower-there (c ∷ s) h = refl
