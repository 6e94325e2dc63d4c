-- ===== src/Random.antt =====
-- Random tokens: newToken of internal/session/session.go, randToken of internal/store/store.go and
-- randHex of internal/auth/auth.go. The bytes of crypto/rand are a parameter, a stream of numbers.
use media_share.Prelude.{
  ℕ, zero, suc, ◌+◌, ◌-◌, ◌*◌, ◌/◌, ◌%◌, ◌≡◌, refl, List, [], ◌∷◌, Text, length, ltb, if◌then◌else◌,
  arith, is_empty, false,
}

-- A source of random bytes.
abbrev pub Rng : Type 0
Rng = ℕ → ℕ

-- rand.Read of n bytes; of each number of the stream the low byte counts
unfoldable pub rand_bytes : ℕ → Rng → List ℕ
rand_bytes zero rng = []
rand_bytes (suc n) rng = rng n % 256 ∷ rand_bytes n rng

abbrev hex_digit : ℕ → ℕ
hex_digit d = if ltb d 10 then b'0' + d else b'a' + (d - 10)

-- hex.EncodeToString
unfoldable pub hex : List ℕ → Text
hex [] = []
hex (b ∷ bs) = hex_digit (b / 16) ∷ hex_digit (b % 16) ∷ hex bs

-- `randToken(n)`, and `randHex(n)`
unfoldable pub rand_token : ℕ → Rng → Text
unfolding rand_bytes hex
rand_token n rng = hex (rand_bytes n rng)

-- `newToken`
unfoldable pub new_token : Rng → Text
unfolding rand_token
new_token rng = rand_token 18 rng

length-hex : (bs : List ℕ) → length (hex bs) ≡ 2 * length bs
unfolding hex
length-hex [] = refl
length-hex (b ∷ bs) = omega (arith, length-hex bs)

length-rand_bytes : (n : ℕ) (rng : Rng) → length (rand_bytes n rng) ≡ n
unfolding rand_bytes
length-rand_bytes zero rng = refl
length-rand_bytes (suc n) rng = omega (arith, length-rand_bytes n rng)

-- A token of n random bytes has 2 n characters.
pub length-rand_token : (n : ℕ) (rng : Rng) → length (rand_token n rng) ≡ 2 * n
unfolding rand_token
length-rand_token n rng = omega (arith, length-hex (rand_bytes n rng), length-rand_bytes n rng)

pub is_empty-new_token : (rng : Rng) → is_empty (new_token rng) ≡ false
unfolding new_token
is_empty-new_token rng = refl
