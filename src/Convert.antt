-- ===== src/Convert.antt =====
-- The conversions between numbers and strings of kernel/string.c.
--
-- A string is the list of its bytes before the terminator. `itoa_s` gives the string that it leaves
-- in the buffer, or none for a buffer of no bytes; its local array has room for 64 characters, which
-- is the fuel of its loop. Words of 64 and 32 bits stand for signed numbers as in C.
pub mod Roundtrip
mod Tests
use eter_os.Base.{
  ℕ, zero, suc, ◌+◌, ◌-◌, ◌*◌, ◌/◌, ◌%◌, ◌^◌, Bool, true, false, not, ◌&&◌, ◌||◌, Option, none,
  some, List, [], ◌∷◌, ◌==◌, ltb, leb, if◌then◌else◌, sub32, sub64, take,
}

unfoldable pub digit_char : ℕ → ℕ
digit_char d = if ltb 9 d then d - 10 + 65 else d + 48

-- The characters of a number before those in `temp`.
unfoldable pub fill_backwards : (fuel base uvalue : ℕ) → (temp : List ℕ) → List ℕ
unfolding digit_char
fill_backwards zero base uvalue temp = temp
fill_backwards (suc fuel) base uvalue temp =
    let rest = fill_backwards fuel base (uvalue / base) (digit_char (uvalue % base) ∷ temp) in
    if uvalue == 0 then temp else rest

-- `itoa_s` for a base from 2 to 36.
unfoldable pub itoa_s : (value buffer_size base : ℕ) → Option (List ℕ)
unfolding fill_backwards
itoa_s value buffer_size base =
    let is_negative = leb (2 ^ 63) value && (base == 10) in
    let uvalue = if is_negative then sub64 0 value else value in
    let digits = fill_backwards 64 base uvalue [] in
    if buffer_size == 0
    then none
    else if value == 0
    then some (take (buffer_size - 1) (48 ∷ []))
    else some (take (buffer_size - 1) (if is_negative then 45 ∷ digits else digits))

-- What `atoi_s` returns: 0 with the number in `out`, -1, -2 and -3.
pub data Parsed : Type 0 where
  number : ℕ → Parsed
  empty overflow invalid : Parsed

abbrev pub is_space : ℕ → Bool
is_space c = (c == 32) || (leb 9 c && leb c 13)

unfoldable pub skip_space : List ℕ → List ℕ
skip_space [] = []
skip_space (c ∷ str) = let rest = skip_space str in if is_space c then rest else c ∷ str

unfoldable pub read_digits : (minus : Bool) → (res : ℕ) → List ℕ → Parsed
read_digits minus res [] = number (if minus then sub32 0 res else res)
read_digits minus res (c ∷ str) =
    let res' = res * 10 + (c - 48) in
    let rest = read_digits minus res' str in
    if leb 48 c && leb c 57
    then if ltb (if minus then 2 ^ 31 else 2 ^ 31 - 1) res' then overflow else rest
    else invalid

-- After the sign there must be something.
unfoldable pub after_sign : Bool → List ℕ → Parsed
unfolding read_digits
after_sign minus [] = empty
after_sign minus (c ∷ str) = read_digits minus 0 (c ∷ str)

unfoldable pub read_sign : List ℕ → Parsed
unfolding after_sign
read_sign [] = empty
read_sign (c ∷ str) =
    if c == 45
    then after_sign true str
    else if c == 43
    then after_sign false str
    else after_sign false (c ∷ str)

-- `atoi_s` for pointers that are not NULL.
unfoldable pub atoi_s : List ℕ → Parsed
unfolding skip_space read_sign
atoi_s str = read_sign (skip_space str)
