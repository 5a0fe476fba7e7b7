-- ===== src/IpUtils.antt =====
-- `ip_aton` of kernel/net/core/ip_utils.c: addresses in dotted decimal notation.
--
-- A string is the list of its characters, without the NUL that ends it.
mod Tests
pub mod Dotted
use eter_os.Base.{
  ℕ, zero, suc, ◌+◌, ◌-◌, ◌*◌, ◌%◌, ◌^◌, Bool, true, false, ◌&&◌, Option, none, some, List, [], ◌∷◌,
  ◌==◌, ltb, leb, if◌then◌else◌, bit_or,
}

unfoldable pub is_digit : ℕ → Bool
is_digit c = leb 48 c && leb c 57

-- The loop over the digits of one part: the part, the number of digits, and what is behind it.
unfoldable pub read_number : List ℕ → (part digits : ℕ) → Option (ℕ × ℕ × List ℕ)
unfolding is_digit
read_number [] part digits = some (part, digits, [])
read_number (c ∷ cs) part digits =
    let more = read_number cs ((part * 10 + (c - 48)) % 2 ^ 32) (digits + 1) in
    if is_digit c then (if ltb 2 digits then none else more) else some (part, digits, c ∷ cs)

-- The part is added to the address as byte `i`.
unfoldable pub add_part : (val part i : ℕ) → ℕ
add_part val part i = bit_or val (part * 2 ^ (i * 8) % 2 ^ 32)

-- The loop over the `n` parts from part `i` on.
unfoldable pub read_parts : (n i : ℕ) → List ℕ → (val : ℕ) → Option (ℕ × List ℕ)
unfolding read_number add_part
read_parts zero i cp val = some (val, cp)
read_parts (suc n) i cp val = elim (read_number cp 0 0) [
  | none ↦ none
  | some (part, digits, rest) ↦
      let last = read_parts n (i + 1) rest (add_part val part i) in
      let next = elim rest as (λ x. Option (ℕ × List ℕ)) [
        | [] ↦ none
        | c ∷ more ↦
            let others = read_parts n (i + 1) more (add_part val part i) in
            if c == 46 then others else none
      ] in
      if digits == 0 then none else if ltb 255 part then none else if ltb i 3 then next else last
]

unfoldable pub ip_aton : List ℕ → ℕ
unfolding read_parts
ip_aton cp = elim (read_parts 4 0 cp 0) [
  | none ↦ 0
  | some (val, rest) ↦ elim rest [ [] ↦ val | _ ↦ 0 ]
]
