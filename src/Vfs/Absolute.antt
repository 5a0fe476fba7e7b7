-- ===== src/Vfs/Absolute.antt =====
-- The absolute path that `vfs_normalize_path` starts from.
use eter_os.Base.{
  take-all, ℕ, zero, suc, ◌≤◌, ◌<◌, ◌≡◌, refl, ◌∙◌, ◌⊎◌, inl, inr, Bool, true, false, List, [], ◌∷◌,
  ◌++◌, length, take, arith, Bool-cases, ap, sym, ◌==◌, some, if◌then◌else◌,
}
use eter_os.Vfs.{slash, strlcpy, strlcat, last_char, absolute}
use eter_os.Vfs.Join.{strlcpy-take, strlcat-take, append_assoc}

unfoldable pub starts : List ℕ → Bool
starts [] = false
starts (c ∷ cs) = c == slash

unfoldable pub ends : List ℕ → Bool
ends [] = false
ends (c ∷ []) = c == slash
ends (c ∷ d ∷ cs) = ends (d ∷ cs)

-- The path, behind the base directory and a slash unless it starts with one, cut to 1023 characters.
unfoldable pub full_path : (path base : List ℕ) → List ℕ
unfolding starts ends
full_path path base =
    take 1023
      (if starts path then path else if ends base then base ++ path else base ++ slash ∷ path)

last_char-ends :
    (c : ℕ) (cs : List ℕ) → (d : ℕ) × (last_char (c ∷ cs) ≡ some d) × ((d == slash) ≡ ends (c ∷ cs))
unfolding last_char ends
last_char-ends c [] = (c, refl, refl)
last_char-ends c (d ∷ cs) = last_char-ends d cs

-- Behind a string that fills the array nothing is added.
take-append_full : (n : ℕ) (xs ys : List ℕ) → n ≤ length xs → take n (xs ++ ys) ≡ take n xs
take-append_full zero xs ys h = refl
take-append_full (suc n) [] ys h = absurd (omega (arith, h))
take-append_full (suc n) (x ∷ xs) ys h =
    ap (λ zs. x ∷ zs) (take-append_full n xs ys (omega (arith, h)))

module _ (path : List ℕ) (b : ℕ) (bs : List ℕ) where
  abbrev base : List ℕ
  base = b ∷ bs

  -- What the code builds for a relative path, where `slashed` tells what it saw at the end.
  abbrev built : Bool → List ℕ
  built slashed =
      let temp = strlcpy base 1024 in
      strlcat (if slashed then temp else strlcat temp (slash ∷ []) 1024) path 1024

  abbrev behind : Bool → List ℕ
  behind slashed = take 1023 (if slashed then base ++ path else base ++ slash ∷ path)

  built-behind : (slashed : Bool) → built slashed ≡ behind slashed
  built-behind true = rw (strlcpy-take base 1023) (strlcat-take base path 1023)
  built-behind false =
      rw (strlcpy-take base 1023, strlcat-take base (slash ∷ []) 1023)
        (strlcat-take (base ++ slash ∷ []) path 1023
          ∙ ap (take 1023) (append_assoc base (slash ∷ []) path))

  behind_long : (slashed : Bool) → 1023 ≤ length base → behind slashed ≡ take 1023 base
  behind_long true h = take-append_full 1023 base path h
  behind_long false h = take-append_full 1023 base (slash ∷ path) h

  built-full_path :
      {d : ℕ}
      → last_char (strlcpy base 1024) ≡ some d
      → starts path ≡ false
      → built (d == slash) ≡ full_path path base
  unfolding full_path
  built-full_path {d} last relative =
      built-behind (d == slash) ∙ elim (long_or_short (length base)) [
        | inl long ↦
            behind_long (d == slash) long ∙ sym (behind_long (ends base) long) ∙ sym (spec relative)
        | inr short ↦ ap behind (ends_short short last) ∙ sym (spec relative)
      ]
    where
      long_or_short : (n : ℕ) → (1023 ≤ n) ⊎ (n < 1023)
      long_or_short n = ground arith

      spec : starts path ≡ false → full_path path base ≡ behind (ends base)
      spec r = rw r refl

      ends_short :
          {e : ℕ}
          → length base < 1023
          → last_char (strlcpy base 1024) ≡ some e
          → (e == slash) ≡ ends base
      ends_short {e} short l =
          let (c, found, same) = last_char-ends b bs in
          let whole : strlcpy base 1024 ≡ base =
            strlcpy-take base 1023 ∙ take-all 1023 base (omega (arith, short)) in
          let found' : some e ≡ some c = sym l ∙ ap last_char whole ∙ found in cc (found', same)

last_char-strlcpy : (b : ℕ) (bs : List ℕ) → (d : ℕ) × (last_char (strlcpy (b ∷ bs) 1024) ≡ some d)
last_char-strlcpy b bs =
    let same : strlcpy (b ∷ bs) 1024 ≡ b ∷ take 1022 bs = strlcpy-take (b ∷ bs) 1023 in
    let (d, last, e) = last_char-ends b (take 1022 bs) in (d, ap last_char same ∙ last)

-- For a base directory that is not empty, this is the path that the code starts from.
pub absolute-full_path :
    (path base : List ℕ) → 0 < length base → absolute path base ≡ some (full_path path base)
unfolding absolute starts full_path
absolute-full_path path [] h = absurd (omega (arith, h))
absolute-full_path [] (b ∷ bs) h =
    let (d, last) = last_char-strlcpy b bs in
    rw (last, absolute) (ap some (built-full_path [] b bs last refl))
absolute-full_path (c ∷ cs) (b ∷ bs) h = elim (Bool-cases (c == slash)) [
  | inl t ↦ rw t (ap some (strlcpy-take (c ∷ cs) 1023))
  | inr t ↦
      let (d, last) = last_char-strlcpy b bs in
      let whole = built-full_path (c ∷ cs) b bs last t in
      rw (t, last, absolute) (ap some (rw t at whole))
]
