-- ===== src/Convert/Tests.antt =====
-- Numbers to strings and back.
use eter_os.Base.{ℕ, ◌≡◌, refl, true, some, List, [], ◌∷◌, arith}
use eter_os.Convert.{
  digit_char, fill_backwards, itoa_s, number, overflow, empty, invalid, skip_space, read_digits,
  after_sign, read_sign, atoi_s,
}
use eter_os.Convert.Roundtrip.{word64, word32, atoi_s-itoa_s}

atoi_s-itoa_s_example :
    (str : List ℕ) × (itoa_s (word64 true 2147483648) 12 10 ≡ some str)
    × (atoi_s str ≡ number (word32 true 2147483648))
atoi_s-itoa_s_example =
    atoi_s-itoa_s true 2147483648 12 (omega arith) (λ e. omega arith) (omega arith)

-- The string is 1F in base 16, and cut where the buffer is short.
hexadecimal : itoa_s 31 8 16 ≡ some (49 ∷ 70 ∷ [])
unfolding itoa_s fill_backwards digit_char
hexadecimal = refl

short_buffer : itoa_s 31 2 16 ≡ some (49 ∷ [])
unfolding itoa_s fill_backwards digit_char
short_buffer = refl

-- 2147483648 has no int32_t.
too_large : atoi_s (50 ∷ 49 ∷ 52 ∷ 55 ∷ 52 ∷ 56 ∷ 51 ∷ 54 ∷ 52 ∷ 56 ∷ []) ≡ overflow
unfolding atoi_s skip_space read_sign after_sign read_digits
too_large = refl

sign_alone : atoi_s (32 ∷ 45 ∷ []) ≡ empty
unfolding atoi_s skip_space read_sign after_sign read_digits
sign_alone = refl

letters : atoi_s (49 ∷ 97 ∷ []) ≡ invalid
unfolding atoi_s skip_space read_sign after_sign read_digits
letters = refl
