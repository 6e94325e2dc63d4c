-- ===== src/Twitch/Parse/Ranks.antt =====
-- The rank that the tags of a message give its sender.
use media_share.Prelude.{
  ◌≡◌, refl, sym, ap, ◌∙◌, Bool, false, ◌&&◌, ◌||◌, some, List, [], ◌∷◌, ◌++◌, Text, codes, same,
  same_iff, is_empty, arith,
}
use media_share.Strings.{contains, cut_at, split}
use media_share.Strings.Cuts.{Lacks, Lacks-append, cut_at-append, split-append, split-whole}
use media_share.Twitch.Parse.{Privmsg, parse_tags, parse_privmsg, with_tag, with_tags, with_value}
use media_share.Twitch.Parse.Laws.{tagged_line, parse_privmsg-tagged_line}

-- A tag that makes a moderator, and one that makes the broadcaster.
abbrev pub makes_mod : Text × Text → Bool
makes_mod (key, val) =
    (same key (codes "mod") && same val (codes "1"))
    || (same key (codes "badges") && contains val (codes "moderator/"))
    || (same key (codes "user-type") && same val (codes "mod"))

abbrev pub makes_broadcaster : Text × Text → Bool
makes_broadcaster (key, val) = same key (codes "badges") && contains val (codes "broadcaster/")

abbrev pub any {ℓ} : {A : Type ℓ} → (A → Bool) → List A → Bool
any p [] = false
any p (x ∷ xs) = p x || any p xs

abbrev pub tag_text : Text × Text → Text
tag_text (key, val) = key ++ (codes "=" ++ val)

abbrev pub tags_text : List (Text × Text) → Text
tags_text [] = []
tags_text (kv ∷ []) = tag_text kv
tags_text (kv ∷ l ∷ kvs) = tag_text kv ++ b';' ∷ tags_text (l ∷ kvs)

-- Neither a space nor a semicolon, and no equals sign in a key.
abbrev pub IsTag : Text × Text → Type 0
IsTag (key, val) =
    Lacks b'=' key × Lacks b';' key × Lacks b' ' key × Lacks b';' val × Lacks b' ' val

abbrev pub AreTags : List (Text × Text) → Type 0
AreTags [] = Unit
AreTags (kv ∷ kvs) = IsTag kv × AreTags kvs

ranked : List (Text × Text) → Privmsg → Privmsg
ranked kvs m = record m {
  is_mod = m.is_mod || any makes_mod kvs;
  is_broadcaster = m.is_broadcaster || any makes_broadcaster kvs;
}

nothing-ranked : (m : Privmsg) → ranked [] m ≡ m
unfolding ranked
nothing-ranked m = ground arith

with_value-ranked :
    (kv : Text × Text) (kvs : List (Text × Text)) (m : Privmsg)
    → ranked kvs (with_value kv.0 kv.1 m) ≡ ranked (kv ∷ kvs) m
unfolding ranked with_value
with_value-ranked (key, val) kvs m = ground (
  arith,
  same_iff key (codes "mod"),
  same_iff key (codes "badges"),
  same_iff key (codes "user-type"),
)

with_tag-ranked :
    (kv : Text × Text) (kvs : List (Text × Text)) (m : Privmsg)
    → Lacks b'=' kv.0
    → ranked kvs (with_tag (cut_at (tag_text kv) (codes "=")) m) ≡ ranked (kv ∷ kvs) m
unfolding with_tag
with_tag-ranked (key, val) kvs m h =
    rw (cut_at-append b'=' [] key val h) (with_value-ranked (key, val) kvs m)

tag_text-Lacks :
    (key val : Text) → Lacks b';' key → Lacks b';' val → Lacks b';' (tag_text (key, val))
tag_text-Lacks key val k v = Lacks-append b';' key (codes "=" ++ val) k (refl, v)

with_tags-ranked :
    (kv : Text × Text) (kvs : List (Text × Text)) (m : Privmsg)
    → AreTags (kv ∷ kvs)
    → with_tags (split (tags_text (kv ∷ kvs)) b';') m ≡ ranked (kv ∷ kvs) m
unfolding with_tags
with_tags-ranked (key, val) [] m h =
    rw (split-whole b';' (tag_text (key, val)) (tag_text-Lacks key val h.0.1 h.0.3)) (
      sym (nothing-ranked (with_tag (cut_at (tag_text (key, val)) (codes "=")) m))
      ∙ with_tag-ranked (key, val) [] m h.0.0)
with_tags-ranked (key, val) (l ∷ kvs) m h =
    rw
      (split-append b';' (tag_text (key, val)) (tags_text (l ∷ kvs))
        (tag_text-Lacks key val h.0.1 h.0.3))
      (with_tags-ranked l kvs (with_tag (cut_at (tag_text (key, val)) (codes "=")) m) h.1
        ∙ with_tag-ranked (key, val) (l ∷ kvs) m h.0.0)

not_empty-tags :
    (kv : Text × Text) (kvs : List (Text × Text)) → is_empty (tags_text (kv ∷ kvs)) ≡ false
not_empty-tags ([], val) [] = refl
not_empty-tags (c ∷ key, val) [] = refl
not_empty-tags ([], val) (l ∷ kvs) = refl
not_empty-tags (c ∷ key, val) (l ∷ kvs) = refl

parse_tags-ranked :
    (kvs : List (Text × Text)) (m : Privmsg)
    → AreTags kvs
    → parse_tags (tags_text kvs) m ≡ ranked kvs m
unfolding parse_tags
parse_tags-ranked [] m h = sym (nothing-ranked m)
parse_tags-ranked (kv ∷ kvs) m h = rw (not_empty-tags kv kvs) (with_tags-ranked kv kvs m h)

tags_text-spaceless : (kvs : List (Text × Text)) → AreTags kvs → Lacks b' ' (tags_text kvs)
tags_text-spaceless [] h = tt
tags_text-spaceless ((key, val) ∷ []) h =
    Lacks-append b' ' key (codes "=" ++ val) h.0.2 (refl, h.0.4)
tags_text-spaceless ((key, val) ∷ l ∷ kvs) h =
    Lacks-append b' ' (tag_text (key, val)) (b';' ∷ tags_text (l ∷ kvs))
      (Lacks-append b' ' key (codes "=" ++ val) h.0.2 (refl, h.0.4))
      (refl, tags_text-spaceless (l ∷ kvs) h.1)

-- A chat line that Twitch sends reads as its sender's nick and text, whatever the text is. The sender is
-- a moderator exactly if a tag says so (`mod=1`, a moderator's badge or `user-type=mod`), and the
-- broadcaster exactly if a badge says so; the text gives no rank. The tags hold neither spaces nor
-- semicolons, their keys no equals sign, nick, host and channel no space, and the nick no exclamation
-- mark.
pub parse_privmsg-ranked :
    (kvs : List (Text × Text)) (user host channel text : Text)
    → AreTags kvs
    → Lacks b' ' user
    → Lacks b'!' user
    → Lacks b' ' host
    → Lacks b' ' channel
    → parse_privmsg (tagged_line (tags_text kvs) user host channel text)
      ≡ some (record {
        user = user;
        text = text;
        is_mod = any makes_mod kvs;
        is_broadcaster = any makes_broadcaster kvs;
      })
parse_privmsg-ranked kvs user host channel text t u b h c =
    let m : Privmsg = record { user = user; text = text; is_mod = false; is_broadcaster = false } in
    parse_privmsg-tagged_line (tags_text kvs) user host channel text (tags_text-spaceless kvs t) u b
      h c
    ∙ ap some (parse_tags-ranked kvs m t)
    ∙ unfold ranked in refl
