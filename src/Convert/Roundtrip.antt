-- ===== src/Convert/Roundtrip.antt =====
-- What `itoa_s` of kernel/string.c prints, `atoi_s` reads.
use native.Mathlib.Numerals.{unary_clauses}
use eter_os.Base.{
  ℕ_discrete, take-all, ℕ, zero, suc, ◌+◌, ◌-◌, ◌*◌, ◌/◌, ◌%◌, ◌^◌, ◌≤◌, ◌<◌, ◌≡◌, refl, ◌∙◌, sym,
  ap, subst, ◌⊎◌, inl, inr, Bool, true, false, ◌&&◌, some, List, [], ◌∷◌, length, ◌==◌, ==_iff, ltb,
  leb, if◌then◌else◌, if_true, if_false, Bool-cases, arith, sub32, sub64,
}
use eter_os.Convert.{
  digit_char, fill_backwards, itoa_s, number, skip_space, read_digits, after_sign, read_sign,
  atoi_s,
}

-- The largest magnitude of an int32_t with this sign.
abbrev pub limit : Bool → ℕ
limit minus = if minus then 2 ^ 31 else 2 ^ 31 - 1

decimal : (v : ℕ) → digit_char (v % 10) ≡ v % 10 + 48
unfolding digit_char
decimal v = ground arith

within : (n v : ℕ) → v ≤ n → ltb n v ≡ false
within n v h = ground (arith, h)

read_digit :
    (minus : Bool) (v : ℕ) (str : List ℕ)
    → v ≤ limit minus
    → read_digits minus (v / 10) (digit_char (v % 10) ∷ str) ≡ read_digits minus v str
unfolding read_digits
read_digit minus v str h =
    let c = digit_char (v % 10) in
    let char = decimal v in
    let value : v / 10 * 10 + (c - 48) ≡ v = omega (arith, char) in
    let is_digit : (leb 48 c && leb c 57) ≡ true = ground (arith, char) in
    let fits : ltb (limit minus) (v / 10 * 10 + (c - 48)) ≡ false =
      ap (ltb (limit minus)) value ∙ within (limit minus) v h in
    if_true _ _ is_digit ∙ if_false _ _ fits ∙ ap (λ n. read_digits minus n str) value

fewer : (v fuel : ℕ) → v < 10 ^ suc fuel → v / 10 < 10 ^ fuel
fewer v fuel h = let h' : v < 10 ^ fuel * 10 = simp unary_clauses at h in omega (arith, h')

-- Reading goes back over the characters that were filled in.
read-fill_backwards :
    (fuel : ℕ) (minus : Bool) (v : ℕ) (str : List ℕ)
    → v < 10 ^ fuel
    → v ≤ limit minus
    → read_digits minus 0 (fill_backwards fuel 10 v str) ≡ read_digits minus v str
unfolding fill_backwards
read-fill_backwards zero minus v str h h' =
    ap (λ n. read_digits minus n str) (omega (arith, simp unary_clauses at h))
read-fill_backwards (suc fuel) minus v str h h' = elim (Bool-cases (v == 0)) [
  | inl null ↦
      ap (read_digits minus 0) (if_true _ _ null)
      ∙ ap (λ n. read_digits minus n str) (sym ((==_iff _ _).0 null))
  | inr more ↦
      ap (read_digits minus 0) (if_false _ _ more)
      ∙ read-fill_backwards fuel minus (v / 10) (digit_char (v % 10) ∷ str) (fewer v fuel h)
          (omega (arith, h'))
      ∙ read_digit minus v str h'
]

length-fill_backwards :
    (fuel k v : ℕ) (str : List ℕ)
    → v < 10 ^ k
    → length (fill_backwards fuel 10 v str) ≤ k + length str
unfolding fill_backwards
length-fill_backwards zero k v str h = omega arith
length-fill_backwards (suc fuel) zero v str h =
    let null : (v == 0) ≡ true = (==_iff _ _).1 (omega (arith, simp unary_clauses at h)) in
    subst (λ (l : List ℕ). length l ≤ zero + length str) (sym (if_true _ _ null)) (omega arith)
length-fill_backwards (suc fuel) (suc k) v str h = elim (Bool-cases (v == 0)) [
  | inl null ↦
      subst (λ (l : List ℕ). length l ≤ suc k + length str) (sym (if_true _ _ null)) (omega arith)
  | inr more ↦
      let less = length-fill_backwards fuel k (v / 10) (digit_char (v % 10) ∷ str) (fewer v k h) in
      subst (λ (l : List ℕ). length l ≤ suc k + length str) (sym (if_false _ _ more))
        (omega (arith, less))
]

-- A string that begins with a digit.
abbrev Starts : List ℕ → Type 0
Starts str = (c : ℕ) × (rest : List ℕ) × (str ≡ c ∷ rest) × (48 ≤ c) × (c ≤ 57)

fill_backwards-Starts :
    (fuel v : ℕ) (str : List ℕ)
    → v < 10 ^ fuel
    → (0 < v) ⊎ Starts str
    → Starts (fill_backwards fuel 10 v str)
unfolding fill_backwards
fill_backwards-Starts zero v str h (inr s) = s
fill_backwards-Starts zero v str h (inl low) = absurd (omega (arith, low, simp unary_clauses at h))
fill_backwards-Starts (suc fuel) v str h s = elim (Bool-cases (v == 0)) [
  | inr more ↦ subst Starts (sym (if_false _ _ more)) (
      fill_backwards-Starts fuel (v / 10) (digit_char (v % 10) ∷ str) (fewer v fuel h)
        (inr (digit_char (v % 10), str, refl, omega (arith, decimal v), omega (arith, decimal v))))
  | inl null ↦ subst Starts (sym (if_true _ _ null)) (old s ((==_iff _ _).0 null))
]
  where
    old : (0 < v) ⊎ Starts str → v ≡ 0 → Starts str
    old (inl low) e = absurd (omega (arith, low, e))
    old (inr s) e = s

-- The words of a number with this sign and magnitude.
abbrev pub word64 : (minus : Bool) → ℕ → ℕ
word64 minus v = if minus then sub64 0 v else v

abbrev pub word32 : (minus : Bool) → ℕ → ℕ
word32 minus v = if minus then sub32 0 v else v

abbrev digits : ℕ → List ℕ
digits v = fill_backwards 64 10 v []

-- A number other than 0 is printed with its digits and read again.
module _ (v : ℕ) (there : 0 < v) (low : v ≤ 2 ^ 31) where
  digits-Starts : Starts (digits v)
  digits-Starts = fill_backwards-Starts 64 v [] (omega (arith, low)) (inl there)

  digits_short : length (digits v) ≤ 10
  digits_short = length-fill_backwards 64 10 v [] (omega (arith, low))

  read_positive : v ≤ 2 ^ 31 - 1 → atoi_s (digits v) ≡ number v
  unfolding atoi_s skip_space read_sign after_sign read_digits
  read_positive fits =
      let (c, rest, e, a, b) = digits-Starts in
      let back = read-fill_backwards 64 false v [] (omega (arith, low)) fits in
      rw e (ground (arith, a, b, ap (read_digits false 0) (sym e) ∙ back))

  read_negative : atoi_s (45 ∷ digits v) ≡ number (sub32 0 v)
  unfolding atoi_s skip_space read_sign after_sign read_digits
  read_negative =
      let (c, rest, e, a, b) = digits-Starts in
      let back = read-fill_backwards 64 true v [] (omega (arith, low)) low in
      rw e (ground (arith, a, b, ap (read_digits true 0) (sym e) ∙ back))

-- The string of a number fits a buffer of 12 bytes.
print_positive : (v size : ℕ) → 0 < v → v ≤ 2 ^ 31 → 12 ≤ size → itoa_s v size 10 ≡ some (digits v)
unfolding itoa_s
print_positive v size there low room =
    let plain : (leb (2 ^ 63) v && (10 == 10)) ≡ false = ground (arith, low) in
    let fits = take-all (size - 1) (digits v) (omega (arith, digits_short v there low, room)) in
    ground (arith, plain, fits, there, room)

print_negative :
    (v size : ℕ)
    → 0 < v
    → v ≤ 2 ^ 31
    → 12 ≤ size
    → itoa_s (sub64 0 v) size 10 ≡ some (45 ∷ digits v)
unfolding itoa_s
print_negative v size there low room =
    let minus : (leb (2 ^ 63) (sub64 0 v) && (10 == 10)) ≡ true = ground (arith, low, there) in
    let back : sub64 0 (sub64 0 v) ≡ v = omega (arith, low) in
    let fits =
      take-all (size - 1) (45 ∷ digits v) (omega (arith, digits_short v there low, room)) in
    ground (arith, minus, fits, ap digits back, there, low, room)

abbrev zero_string : List ℕ
zero_string = 48 ∷ []

print_zero : (size : ℕ) → 12 ≤ size → itoa_s 0 size 10 ≡ some zero_string
unfolding itoa_s
print_zero size room =
    let fits = take-all (size - 1) zero_string (omega (arith, room)) in ground (arith, fits, room)

read_zero : atoi_s (48 ∷ []) ≡ number 0
unfolding atoi_s skip_space read_sign after_sign read_digits
read_zero = refl

-- The string that `itoa_s` leaves of an int32_t in base 10, in a buffer of 12 bytes or more, is one
-- that `atoi_s` reads as the same number.
pub atoi_s-itoa_s :
    (minus : Bool) (v size : ℕ)
    → v ≤ limit minus
    → (minus ≡ true → 0 < v)
    → 12 ≤ size
    → (str : List ℕ) × (itoa_s (word64 minus v) size 10 ≡ some str)
      × (atoi_s str ≡ number (word32 minus v))
atoi_s-itoa_s true v size low there room =
    (45 ∷ digits v, print_negative v size (there refl) low room, read_negative v (there refl) low)
atoi_s-itoa_s false v size low there room = elim (ℕ_discrete v 0) [
  | yes e ↦
      (48 ∷ [], ap (λ n. itoa_s n size 10) e ∙ print_zero size room, read_zero ∙ ap number (sym e))
  | no ne ↦
      let some : 0 < v = omega (arith, ne) in
      let less : v ≤ 2 ^ 31 = omega (arith, low) in
      (digits v, print_positive v size some less room, read_positive v some less low)
]
