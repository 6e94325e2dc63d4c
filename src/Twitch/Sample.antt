-- ===== src/Twitch/Sample.antt =====
-- A way to write tokens down that reads back, as encoding/json does.
use media_share.Prelude.{ℕ, zero, suc, ◌≡◌, refl, ap, Option, none, some, [], ◌∷◌, Text}
use media_share.Prelude.Int.{ℤ, pos, negsuc}
use media_share.Twitch.Oauth.{Token}
use media_share.Twitch.Files.{Codec}
use media_share.Twitch.Files.Laws.{IsFaithful}

-- A field ends in a zero.
field : Text → Text → Text
field [] rest = 0 ∷ rest
field (c ∷ s) rest = suc c ∷ field s rest

abbrev longer : ℕ → Option (Text × Text) → Option (Text × Text)
longer c none = none
longer c (some (s, rest)) = some (c ∷ s, rest)

take_field : Text → Option (Text × Text)
take_field [] = none
take_field (zero ∷ rest) = some ([], rest)
take_field (suc c ∷ t) = longer c (take_field t)

take_field-field : (s rest : Text) → take_field (field s rest) ≡ some (s, rest)
unfolding take_field field
take_field-field [] rest = refl
take_field-field (c ∷ s) rest = ap (longer c) (take_field-field s rest)

number : ℤ → Text
number (pos n) = 0 ∷ n ∷ []
number (negsuc n) = 1 ∷ n ∷ []

take_number : Text → Option ℤ
take_number (zero ∷ n ∷ rest) = some (pos n)
take_number (suc k ∷ n ∷ rest) = some (negsuc n)
take_number _ = none

take_number-number : (z : ℤ) → take_number (number z) ≡ some z
unfolding take_number number
take_number-number (pos n) = refl
take_number-number (negsuc n) = refl

pub written : Token → Text
unfolding field number
written t =
    field t.bot_login
      (field t.channel (field t.access_token (field t.refresh_token (number t.expires_at))))

infixl 5 ◌>>=◌
abbrev ◌>>=◌ : {A B : Type 0} → Option A → (A → Option B) → Option B
none >>= f = none
some a >>= f = f a

pub read : Text → Option Token
unfolding take_field take_number
read s = do
  a ← take_field s
  b ← take_field a.1
  c ← take_field b.1
  d ← take_field c.1
  e ← take_number d.1
  some (record {
    bot_login = a.0;
    channel = b.0;
    access_token = c.0;
    refresh_token = d.0;
    expires_at = e;
  })

abbrev pub codec : Codec
codec = record { marshal = written; unmarshal = read }

pub codec-IsFaithful : IsFaithful codec
unfolding written read
codec-IsFaithful t = simp (take_field-field, take_number-number)
