-- ===== src/Channel/Size.antt =====
-- The bytes of a `size_t`, which the module puts in front of the data of each message: four of
-- them, little end first (a 32-bit target).
use riot_csp_module.Common.{
  ℕ, ◌+◌, ◌*◌, ◌/◌, ◌%◌, ◌^◌, ◌<◌, ◌≡◌, refl, List, [], ◌∷◌, length, arith,
}

-- sizeof (size_t)
abbrev pub size_bytes : ℕ
size_bytes = 4

unfoldable pub encode_size : ℕ → List ℕ
encode_size n = (n % 256) ∷ (n / 256 % 256) ∷ (n / 65536 % 256) ∷ (n / 16777216 % 256) ∷ []

unfoldable pub decode_size : List ℕ → ℕ
decode_size [] = 0
decode_size (b ∷ bs) = b + 256 * decode_size bs

pub length-encode_size : (n : ℕ) → length (encode_size n) ≡ size_bytes
unfolding encode_size
length-encode_size n = refl

-- The size of a message that fits in a size_t comes out of its four bytes as it went in.
pub decode-encode_size : (n : ℕ) → n < 2 ^ 32 → decode_size (encode_size n) ≡ n
unfolding encode_size decode_size
decode-encode_size n h = omega arith
