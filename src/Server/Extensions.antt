-- ===== src/Server/Extensions.antt =====
-- internal/config/config.go: which uploads the setting ALLOWED_MEDIA_EXT lets through.
use media_share.Prelude.{
  ◌≡◌, refl, ap, ◌∙◌, Bool, false, ◌||◌, List, [], ◌∷◌, Text, codes, same, is_empty, All,
}
use media_share.Strings.{to_lower, join, split}
use media_share.Strings.Cuts.{Lacks, split-append, split-whole}
use media_share.Strings.Trims.{IsSolid, to_lower-IsSolid, to_lower-there, trim_space-solid}
use media_share.Config.{dotted_parts, split_ext, with_dot}
use media_share.Server.{Config, dotted, ext_allowed, member}

-- Two extensions, with or without their dot and in whichever case.
same_ext : Text → Text → Bool
unfolding dotted
same_ext a b = same (dotted (to_lower a)) (dotted (to_lower b))

unfoldable pub any_ext : List Text → Text → Bool
unfolding same_ext
any_ext [] e = false
any_ext (n ∷ ns) e = same_ext n e || any_ext ns e

-- A name that may stand in the list: not empty, without white space and commas.
pub record IsName (n : Text) : Type 0 where
  pub there : is_empty n ≡ false
  pub solid : All IsSolid n
  pub single : Lacks b',' n

dotted_parts-member :
    (e : Text) (ns : List Text)
    → All IsName ns
    → member (dotted (to_lower e)) (dotted_parts ns) ≡ any_ext ns e
unfolding dotted_parts member any_ext with_dot dotted
dotted_parts-member e [] h = refl
dotted_parts-member e (n ∷ ns) h =
    rw
      (trim_space-solid (to_lower n) (to_lower-IsSolid n (h.0).solid), to_lower-there n (h.0).there)
      (ap (λ b. same (dotted (to_lower n)) (dotted (to_lower e)) || b)
        (dotted_parts-member e ns h.1))

split-join :
    (n : Text) (ns : List Text)
    → All IsName (n ∷ ns)
    → split (join (n ∷ ns) (codes ",")) b',' ≡ n ∷ ns
unfolding join
split-join n [] h = split-whole b',' n (h.0).single
split-join n (m ∷ ns) h =
    split-append b',' n (join (m ∷ ns) (codes ",")) (h.0).single
    ∙ ap (λ l. n ∷ l) (split-join m ns h.1)

-- With the names of a list that is not empty in ALLOWED_MEDIA_EXT, separated by commas, an upload's
-- extension is allowed exactly if it is one of the names, with or without the dot and in whichever case.
-- The names are not empty and hold neither white space nor commas.
ext_allowed-split_ext :
    (c : Config) (n : Text) (ns : List Text) (e : Text)
    → All IsName (n ∷ ns)
    → ext_allowed (record c { allowed_ext = split_ext (join (n ∷ ns) (codes ",")) }) e
      ≡ any_ext (n ∷ ns) e
unfolding ext_allowed split_ext
ext_allowed-split_ext c n ns e h = rw (split-join n ns h) (dotted_parts-member e (n ∷ ns) h)
