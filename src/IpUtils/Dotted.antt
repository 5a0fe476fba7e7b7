-- ===== src/IpUtils/Dotted.antt =====
-- `ip_aton` reads what dotted decimal notation writes.
use eter_os.Bits.{bit_or_above}
use eter_os.Base.{
  sym, ℕ, suc, ◌+◌, ◌-◌, ◌*◌, ◌/◌, ◌%◌, ◌^◌, ◌≤◌, ◌<◌, ◌≡◌, refl, ◌∙◌, true, false, some, List, [],
  ◌∷◌, ◌++◌, ◌==◌, ==_ne, ltb, not_lt→ltb, lt→ltb, ltb→lt, if◌then◌else◌, arith, ap, Bool-cases,
  inl, inr,
}
use eter_os.IpUtils.{is_digit, read_number, add_part, read_parts, ip_aton}

-- A number below 1000 in decimal notation, with no leading zeros.
unfoldable pub decimal : ℕ → List ℕ
decimal n =
    if ltb n 10
    then (48 + n) ∷ []
    else if ltb n 100
    then (48 + n / 10) ∷ (48 + n % 10) ∷ []
    else (48 + n / 100) ∷ (48 + n / 10 % 10) ∷ (48 + n % 10) ∷ []

-- The string does not go on with a digit.
unfoldable pub Stops : List ℕ → Type 0
Stops [] = Unit
Stops (c ∷ cs) = is_digit c ≡ false

read_number-stop :
    (rest : List ℕ) (part digits : ℕ)
    → Stops rest
    → read_number rest part digits ≡ some (part, digits, rest)
unfolding read_number Stops
read_number-stop [] part digits h = refl
read_number-stop (c ∷ cs) part digits h = rw h refl

digit_lem : (x : ℕ) → x < 10 → is_digit (48 + x) ≡ true
unfolding is_digit
digit_lem x h = ground arith

read_number-digit :
    (x : ℕ) (cs : List ℕ) (part digits : ℕ)
    → x < 10
    → part < 1000
    → digits < 3
    → read_number ((48 + x) ∷ cs) part digits ≡ read_number cs (part * 10 + x) (digits + 1)
unfolding read_number
read_number-digit x cs part digits h small few =
    let digit : is_digit (48 + x) ≡ true = digit_lem x h in
    let value : (part * 10 + (48 + x - 48)) % 2 ^ 32 ≡ part * 10 + x = omega (arith, h, small) in
    rw (digit, not_lt→ltb 2 digits (λ l. omega (arith, l, few)), read_number, value) refl

-- The digits of a byte are read back.
read_number-decimal :
    (n : ℕ) (rest : List ℕ)
    → n < 256
    → Stops rest
    → (k : ℕ) × (read_number (decimal n ++ rest) 0 0 ≡ some (n, suc k, rest))
unfolding decimal
read_number-decimal n rest h stop = elim (Bool-cases (ltb n 10)) [
  | inl one ↦ (
    0,
    rw one (
        read_number-digit n rest 0 0 (ltb→lt n 10 one) (omega arith) (omega arith)
        ∙ read_number-stop rest _ _ stop
        ∙ ap (λ p. some (p, 1, rest)) (omega arith)),
  )
  | inr many ↦ elim (Bool-cases (ltb n 100)) [
    | inl two ↦ (
      1,
      rw (many, two)
          (read_number-digit (n / 10) _ 0 0 (omega (arith, ltb→lt n 100 two)) (omega arith)
              (omega arith)
            ∙ read_number-digit (n % 10) rest _ _ (omega arith) (omega (arith, h)) (omega arith)
            ∙ read_number-stop rest _ _ stop
            ∙ ap (λ p. some (p, 2, rest)) (omega arith)),
    )
    | inr three ↦ (
      2,
      rw (many, three)
          (read_number-digit (n / 100) _ 0 0 (omega (arith, h)) (omega arith) (omega arith)
            ∙ read_number-digit (n / 10 % 10) _ _ _ (omega arith) (omega (arith, h)) (omega arith)
            ∙ read_number-digit (n % 10) rest _ _ (omega arith) (omega (arith, h)) (omega arith)
            ∙ read_number-stop rest _ _ stop
            ∙ ap (λ p. some (p, 3, rest)) (omega arith)),
    )
  ]
]

module _ (n i : ℕ) (part : ℕ) (val : ℕ) (byte : part < 256) where
  -- A part with a dot behind it.
  read_parts-dot :
      (rest : List ℕ)
      → i < 3
      → read_parts (suc n) i (decimal part ++ 46 ∷ rest) val
        ≡ read_parts n (i + 1) rest (add_part val part i)
  unfolding read_parts Stops is_digit
  read_parts-dot rest inner =
      let (k, e) = read_number-decimal part (46 ∷ rest) byte refl in
      let digits : (suc k == 0) ≡ false = ==_ne (suc k) 0 (λ z. omega (arith, z)) in
      rw
        (e, digits, not_lt→ltb 255 part (λ l. omega (arith, l, byte)), lt→ltb i 3 inner, read_parts)
        refl

  -- The last part.
  read_parts-end :
      3 ≤ i
      → read_parts (suc n) i (decimal part ++ []) val
        ≡ read_parts n (i + 1) [] (add_part val part i)
  unfolding read_parts Stops
  read_parts-end outer =
      let (k, e) = read_number-decimal part [] byte tt in
      let digits : (suc k == 0) ≡ false = ==_ne (suc k) 0 (λ z. omega (arith, z)) in
      rw
        (
          e,
          digits,
          not_lt→ltb 255 part (λ l. omega (arith, l, byte)),
          not_lt→ltb i 3 (λ l. omega (arith, l, outer)),
          read_parts,
        )
        refl

ip_aton-read_parts :
    (cp : List ℕ) (val : ℕ) → read_parts 4 0 cp 0 ≡ some (val, []) → ip_aton cp ≡ val
unfolding ip_aton
ip_aton-read_parts cp val e = rw (e, ip_aton) refl

unfoldable pub dotted : ℕ → ℕ → ℕ → ℕ → List ℕ
unfolding decimal
dotted a b c d = decimal a ++ (46 ∷ (decimal b ++ (46 ∷ (decimal c ++ (46 ∷ (decimal d ++ []))))))

-- A part above the bits of the address so far is added to it.
add_part_above :
    (k val part i : ℕ)
    → k ≡ i * 8
    → k < 32
    → part < 256
    → part * 2 ^ k < 2 ^ 32
    → val < 2 ^ k
    → add_part val part i ≡ val + part * 2 ^ k
unfolding add_part
add_part_above k val part i e small byte fits below =
    let whole : part * 2 ^ k % 2 ^ 32 ≡ part * 2 ^ k = omega (arith, fits) in
    rw (sym e, whole) (bit_or_above k val part below)

add_parts :
    (a b c d : ℕ)
    → a < 256
    → b < 256
    → c < 256
    → d < 256
    → add_part (add_part (add_part (add_part 0 a 0) b 1) c 2) d 3
      ≡ a + b * 2 ^ 8 + c * 2 ^ 16 + d * 2 ^ 24
add_parts a b c d ha hb hc hd =
    let first : add_part 0 a 0 ≡ a =
      add_part_above 0 0 a 0 refl (omega arith) ha (omega (arith, ha)) (omega arith)
      ∙ omega arith in
    let second : add_part a b 1 ≡ a + b * 2 ^ 8 =
      add_part_above 8 a b 1 refl (omega arith) hb (omega (arith, hb)) (omega (arith, ha)) in
    let third : add_part (a + b * 2 ^ 8) c 2 ≡ a + b * 2 ^ 8 + c * 2 ^ 16 =
      add_part_above 16 (a + b * 2 ^ 8) c 2 refl (omega arith) hc (omega (arith, hc))
        (omega (arith, ha, hb)) in
    let fourth : add_part (a + b * 2 ^ 8 + c * 2 ^ 16) d 3
        ≡ a + b * 2 ^ 8 + c * 2 ^ 16 + d * 2 ^ 24 =
      add_part_above 24 (a + b * 2 ^ 8 + c * 2 ^ 16) d 3 refl (omega arith) hd (omega (arith, hd))
        (omega (arith, ha, hb, hc)) in
    ap (λ x. add_part (add_part (add_part x b 1) c 2) d 3) first
    ∙ ap (λ x. add_part (add_part x c 2) d 3) second
    ∙ ap (λ x. add_part x d 3) third
    ∙ fourth

-- Four bytes in dotted decimal notation give the address that has them in this order, the first one
-- in the lowest eight bits.
pub ip_aton-dotted :
    (a b c d : ℕ)
    → a < 256
    → b < 256
    → c < 256
    → d < 256
    → ip_aton (dotted a b c d) ≡ a + b * 2 ^ 8 + c * 2 ^ 16 + d * 2 ^ 24
unfolding dotted read_parts
ip_aton-dotted a b c d ha hb hc hd =
    let all : read_parts 4 0 (dotted a b c d) 0
        ≡ some (add_part (add_part (add_part (add_part 0 a 0) b 1) c 2) d 3, []) =
      read_parts-dot 3 0 a 0 ha _ (omega arith)
      ∙ read_parts-dot 2 1 b _ hb _ (omega arith)
      ∙ read_parts-dot 1 2 c _ hc _ (omega arith)
      ∙ read_parts-end 0 3 d _ hd (omega arith) in
    ip_aton-read_parts (dotted a b c d) _ all ∙ add_parts a b c d ha hb hc hd
