-- ===== src/Dhcp/Roundtrip.antt =====
-- `dhcp_parse_options` reads back what a server writes as a list of options.
use eter_os.Base.{
  ℕ, zero, suc, ◌+◌, ◌≤◌, ◌<◌, ◌≡◌, refl, ◌∙◌, ◌≢◌, inl, inr, some, List, [], ◌∷◌, ◌++◌, leb, ◌==◌,
  if◌then◌else◌, arith, length, length-append, leb→le, Bool-cases, lt→ltb, not_lt→ltb, get_elem?,
  take, leb-false, ==_ne,
}
use eter_os.Dhcp.{
  Outcome, value, byte, load4, Config, process, option_step, options_loop, parse_options,
  fixed_dhcp_size,
}

-- An option as RFC 2132 lays it out: a pad byte, or a code, a length and the data.
pub data DhcpOption : Type 0 where
  pad : DhcpOption
  option : (code : ℕ) → List ℕ → DhcpOption

unfoldable pub encode : DhcpOption → List ℕ
encode pad = 0 ∷ []
encode (option code bytes) = code ∷ length bytes ∷ bytes

unfoldable pub encode_all : List DhcpOption → List ℕ
unfolding encode
encode_all [] = 255 ∷ []
encode_all (o ∷ os) = encode o ++ encode_all os

-- The codes 0 and 255 are the pad and the end.
abbrev pub IsProper : DhcpOption → Type 0
IsProper pad = Unit {0}
IsProper (option code bytes) = (code ≢ 0) × (code ≢ 255)

abbrev pub AllProper : List DhcpOption → Type 0
AllProper [] = Unit {0}
AllProper (o ∷ os) = IsProper o × AllProper os

-- What an option means: the subnet mask, the router or the name server, of four bytes at least.
unfoldable pub apply : DhcpOption → Config → Config
apply pad cfg = cfg
apply (option code bytes) cfg =
    if leb 4 (length bytes)
    then if code == 1
      then record cfg { mask = take 4 bytes }
      else if code == 3
      then record cfg { gw = take 4 bytes }
      else if code == 6
      then record cfg { dns = take 4 bytes }
      else cfg
    else cfg

unfoldable pub apply_all : List DhcpOption → Config → Config
unfolding apply
apply_all [] cfg = cfg
apply_all (o ∷ os) cfg = apply_all os (apply o cfg)

length-encode_all_pos : (os : List DhcpOption) → 0 < length (encode_all os)
unfolding encode_all
length-encode_all_pos [] = omega arith
length-encode_all_pos (pad ∷ os) = omega arith
length-encode_all_pos (option code xs ∷ os) = omega arith

-- From offset `i` on the buffer holds `rest`.
abbrev pub Holds : List ℕ → ℕ → List ℕ → Type 0
Holds buffer i rest = (j : ℕ) → j < length rest → get_elem? buffer (i + j) ≡ get_elem? rest j

module _ (buffer : List ℕ) where
  Holds-tail : (i x : ℕ) (rest : List ℕ) → Holds buffer i (x ∷ rest) → Holds buffer (i + 1) rest
  Holds-tail i x rest h j l =
      let e : i + 1 + j ≡ i + suc j = omega arith in rw e (h (suc j) (omega arith))

  Holds-drop :
      (i : ℕ) (xs rest : List ℕ) → Holds buffer i (xs ++ rest) → Holds buffer (i + length xs) rest
  Holds-drop i [] rest h = let e : i + 0 ≡ i = omega arith in rw e h
  Holds-drop i (x ∷ xs) rest h =
      let e : i + suc (length xs) ≡ i + 1 + length xs = omega arith in
      rw e (Holds-drop (i + 1) xs rest (Holds-tail i x (xs ++ rest) h))

  byte_head : (i x : ℕ) (rest : List ℕ) → Holds buffer i (x ∷ rest) → byte buffer i ≡ value x
  unfolding byte
  byte_head i x rest h =
      let e : i + 0 ≡ i = omega arith in
      let f : get_elem? buffer i ≡ some x = rw e at (h 0 (omega arith)) in rw (f, byte) refl

  byte_at :
      (i k : ℕ) {x : ℕ} (rest : List ℕ)
      → Holds buffer i rest
      → k < length rest
      → get_elem? rest k ≡ some x
      → byte buffer (i + k) ≡ value x
  unfolding byte
  byte_at i k rest h l e = rw (h k l ∙ e, byte) refl

  load4_head :
      (i : ℕ) (xs rest : List ℕ)
      → 4 ≤ length xs
      → Holds buffer i (xs ++ rest)
      → load4 buffer i ≡ value (take 4 xs)
  unfolding load4
  load4_head i [] rest l h = absurd (omega arith)
  load4_head i (a ∷ []) rest l h = absurd (omega arith)
  load4_head i (a ∷ b ∷ []) rest l h = absurd (omega arith)
  load4_head i (a ∷ b ∷ c ∷ []) rest l h = absurd (omega arith)
  load4_head i (a ∷ b ∷ c ∷ d ∷ xs) rest l h =
      let all = a ∷ b ∷ c ∷ d ∷ xs ++ rest in
      rw (
        byte_head i a (b ∷ c ∷ d ∷ xs ++ rest) h,
        byte_at i 1 all h (omega arith) refl,
        byte_at i 2 all h (omega arith) refl,
        byte_at i 3 all h (omega arith) refl,
      )

  process-apply :
      (i code : ℕ) (xs rest : List ℕ) (cfg : Config)
      → Holds buffer i (xs ++ rest)
      → process buffer code (length xs) i cfg ≡ value (apply (option code xs) cfg)
  unfolding process apply
  process-apply i code xs rest cfg h = elim (Bool-cases (leb 4 (length xs))) [
    | inr short ↦ ground arith
    | inl long ↦ ground (arith, load4_head i xs rest (leb→le _ _ long) h)
  ]

  module _ (len : ℕ) where
    -- One option in front of `rest`, inside the buffer.
    option_step-apply :
        (i code : ℕ) (xs rest : List ℕ) (cfg : Config) (next : ℕ → Config → Outcome Config)
        → Holds buffer i (code ∷ length xs ∷ xs ++ rest)
        → i + 2 + length xs ≤ len
        → option_step buffer len i code cfg next
          ≡ next (i + 2 + length xs) (apply (option code xs) cfg)
    unfolding option_step
    option_step-apply i code xs rest cfg next h l =
        let tail : Holds buffer (i + 1) (length xs ∷ xs ++ rest) =
          Holds-tail i code (length xs ∷ xs ++ rest) h in
        let e : i + 1 + 1 ≡ i + 2 = omega arith in
        let data' : Holds buffer (i + 2) (xs ++ rest) =
          rw e at (Holds-tail (i + 1) (length xs) (xs ++ rest) tail) in
        rw (
          not_lt→ltb len (i + 2) (omega arith),
          byte_head (i + 1) (length xs) (xs ++ rest) tail,
          not_lt→ltb len (i + 2 + length xs) (omega arith),
          process-apply (i + 2) code xs rest cfg data',
        )

    options_loop_apply :
        (os : List DhcpOption) (fuel i : ℕ) (cfg : Config)
        → AllProper os
        → Holds buffer i (encode_all os)
        → i + length (encode_all os) ≤ len
        → length (encode_all os) ≤ fuel
        → options_loop fuel buffer len i cfg ≡ value (apply_all os cfg)
    unfolding options_loop encode_all apply_all
    options_loop_apply os zero i cfg p h l f = absurd (omega (arith, length-encode_all_pos os))
    options_loop_apply [] (suc fuel) i cfg p h l f =
        rw (lt→ltb i len (omega arith), byte_head i 255 [] h) refl
    options_loop_apply (pad ∷ os) (suc fuel) i cfg p h l f =
        rw (lt→ltb i len (omega arith), byte_head i 0 (encode_all os) h)
          (options_loop_apply os fuel (i + 1) cfg p.1 (Holds-tail i 0 (encode_all os) h)
            (omega arith) (omega arith))
    options_loop_apply (option code xs ∷ os) (suc fuel) i cfg p h l f =
        let n = length xs in
        let rest = encode_all os in
        let len' : length (xs ++ rest) ≡ n + length rest = length-append xs rest in
        let e : i + 1 + 1 ≡ i + 2 = omega arith in
        let data' : Holds buffer (i + 2) (xs ++ rest) =
          rw e at (Holds-tail (i + 1) n (xs ++ rest) (Holds-tail i code (n ∷ xs ++ rest) h)) in
        rw
          (
            lt→ltb i len (omega arith),
            byte_head i code (n ∷ xs ++ rest) h,
            ==_ne code 255 p.0.1,
            ==_ne code 0 p.0.0,
            option_step-apply i code xs rest cfg (options_loop fuel buffer len) h
                (omega (arith, len')),
          )
          (options_loop_apply os fuel (i + 2 + n) (apply (option code xs) cfg) p.1
            (Holds-drop (i + 2) xs rest data') (omega (arith, len')) (omega (arith, len')))

-- Where the options area holds the encoding of `os` and the end option within `len` bytes, and each
-- option is well formed, `dhcp_parse_options` applies the options in their order.
pub parse_options-encode_all :
    (buffer : List ℕ) (len : ℕ) (os : List DhcpOption) (cfg : Config)
    → AllProper os
    → Holds buffer fixed_dhcp_size (encode_all os)
    → fixed_dhcp_size + length (encode_all os) ≤ len
    → parse_options buffer len cfg ≡ value (apply_all os cfg)
unfolding parse_options
parse_options-encode_all buffer len os cfg p h l =
    rw (leb-false len fixed_dhcp_size (omega (arith, length-encode_all_pos os)))
      (options_loop_apply buffer len os (suc len) fixed_dhcp_size cfg p h l (omega arith))
