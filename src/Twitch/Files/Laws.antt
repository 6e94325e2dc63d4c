-- ===== src/Twitch/Files/Laws.antt =====
-- A token on the disk, behind a Save or a Clear.
use media_share.Prelude.{◌≡◌, refl, ◌⊎◌, inl, inr, true, false, some, is_empty, arith}
use media_share.Twitch.Oauth.{Token}
use media_share.Twitch.Files.{
  Codec, Directory, found, no_token, Progress, get, save, clear, no_directory, unmarshalled,
  write_stopped, not_renamed, saved,
}

-- What is written reads back.
abbrev pub IsFaithful : Codec → Type 0
IsFaithful codec = (t : Token) → codec.unmarshal (codec.marshal t) ≡ some t

-- With a JSON encoder that its decoder reads back, wherever a `Save` of a token with an access token ends,
-- by an error or because the process ends, `Get` reads either the new token, and then the `Save` reported no
-- error, or what it read before, and then it did not succeed.
pub save_atomic :
    (codec : Codec) (p : Progress) (t : Token) (dir : Directory)
    → IsFaithful codec
    → is_empty t.access_token ≡ false
    → (((save codec p t dir).0 ≡ true) × (get codec true (save codec p t dir).1 ≡ found t))
      ⊎ (((save codec p t dir).0 ≡ false)
          × (get codec true (save codec p t dir).1 ≡ get codec true dir))
unfolding save get
save_atomic codec no_directory t dir json there = inr (refl, refl)
save_atomic codec unmarshalled t dir json there = inr (refl, refl)
save_atomic codec (write_stopped n) t dir json there = inr (refl, refl)
save_atomic codec not_renamed t dir json there = inr (refl, refl)
save_atomic codec saved t dir json there = inl (refl, ground (arith, json t, there))

pub save-get :
    (codec : Codec) (t : Token) (dir : Directory)
    → IsFaithful codec
    → is_empty t.access_token ≡ false
    → get codec true (save codec saved t dir).1 ≡ found t
unfolding save get
save-get codec t dir json there = ground (arith, json t, there)

-- A removed token is gone.
pub clear-get : (codec : Codec) (dir : Directory) → get codec true (clear true dir).1 ≡ no_token
unfolding clear get
clear-get codec dir = ground arith
