-- ===== src/Vfs/Split.antt =====
-- The loop of `vfs_normalize_path` over the characters, against a path as a list of names.
use eter_os.Base.{
  ap₂, drop, ◌&&◌, ℕ, zero, suc, ◌+◌, ◌≤◌, ◌<◌, ◌≡◌, refl, ◌∙◌, ◌⊎◌, inl, inr, Bool, true, false,
  none, some, List, [], ◌∷◌, length, filter, arith, ◌==◌, if◌then◌else◌, Bool-cases, ap, sym, ltb,
}
use eter_os.Vfs.{
  dot, slash, skip_slashes, scan, is_dot, is_dot_dot, pop, store, split, Segments, segments_are,
  too_many,
}

-- The parts of a path between its slashes, empty ones included: the first, and the others.
unfoldable pub fields : List ℕ → List ℕ × List (List ℕ)
fields [] = ([], [])
fields (c ∷ cs) =
    let (first, others) = fields cs in
    if c == slash then ([], first ∷ others) else (c ∷ first, others)

unfoldable pub is_name : List ℕ → Bool
is_name [] = false
is_name (c ∷ cs) = true

unfoldable pub names : List ℕ → List (List ℕ)
unfolding fields is_name
names p = filter is_name ((fields p).0 ∷ (fields p).1)

-- Whether two strings are the same.
unfoldable pub same : List ℕ → List ℕ → Bool
same [] [] = true
same [] (d ∷ ds) = false
same (c ∷ cs) [] = false
same (c ∷ cs) (d ∷ ds) = c == d && same cs ds

pub same_true : (s t : List ℕ) → same s t ≡ true → s ≡ t
unfolding same
same_true [] [] h = refl
same_true [] (d ∷ ds) h = cc h
same_true (c ∷ cs) [] h = cc h
same_true (c ∷ cs) (d ∷ ds) h =
    let head : c ≡ d = ground (arith, h) in
    let tail : same cs ds ≡ true = ground (arith, h) in
    ap₂ (λ x xs. x ∷ xs) head (same_true cs ds tail)

pub is_dot-same : (s : List ℕ) → is_dot s ≡ same s (dot ∷ [])
unfolding same is_dot
is_dot-same [] = refl
is_dot-same (c ∷ []) = ground arith
is_dot-same (c ∷ d ∷ cs) = ground arith

pub is_dot_dot-same : (s : List ℕ) → is_dot_dot s ≡ same s (dot ∷ dot ∷ [])
unfolding same is_dot_dot
is_dot_dot-same [] = refl
is_dot_dot-same (c ∷ []) = ground arith
is_dot_dot-same (c ∷ d ∷ []) = ground arith
is_dot_dot-same (c ∷ d ∷ e ∷ cs) = ground arith

pop-drop : (dir : List (List ℕ)) → pop dir ≡ drop 1 dir
unfolding pop
pop-drop [] = refl
pop-drop (s ∷ dir) = refl

-- Where a path of names leads from a directory, itself a list of names with the last one first.
unfoldable pub resolve : List (List ℕ) → List (List ℕ) → List (List ℕ)
unfolding same
resolve [] dir = dir
resolve (n ∷ ns) dir =
    resolve ns
      (if same n (dot ∷ []) then dir else if same n (dot ∷ dot ∷ []) then drop 1 dir else n ∷ dir)

skip_slashes-stop : (c : ℕ) (cs : List ℕ) → (c == slash) ≡ false → skip_slashes (c ∷ cs) ≡ c ∷ cs
unfolding skip_slashes
skip_slashes-stop c cs e = rw e refl

pub names-skip_slashes : (p : List ℕ) → names (skip_slashes p) ≡ names p
unfolding names fields skip_slashes is_name
names-skip_slashes [] = refl
names-skip_slashes (c ∷ cs) = elim (Bool-cases (c == slash)) [
  | inl e ↦ rw (e, fields, skip_slashes) (names-skip_slashes cs)
  | inr e ↦ ap names (skip_slashes-stop c cs e)
]

fields-scan :
    (p : List ℕ) → ((fields p).0 ≡ (scan p).0) × (filter is_name (fields p).1 ≡ names (scan p).1)
unfolding names fields scan is_name
fields-scan [] = (refl, refl)
fields-scan (c ∷ cs) = elim (Bool-cases (c == slash)) [
  | inl e ↦ rw e (refl, refl)
  | inr e ↦ let (h, t) = fields-scan cs in rw (e, fields, scan) (ap (λ s. c ∷ s) h, t)
]

-- The segment that the loop cuts off is the first name.
names-scan :
    (c : ℕ) (cs : List ℕ)
    → (c == slash) ≡ false
    → names (c ∷ cs) ≡ (scan (c ∷ cs)).0 ∷ names (scan (c ∷ cs)).1
unfolding names fields scan is_name
names-scan c cs e = let (h, t) = fields-scan cs in rw (e, h, t) refl

skip_slashes-head :
    (p : List ℕ) {c : ℕ} {cs : List ℕ}
    → skip_slashes p ≡ c ∷ cs
    → ((c == slash) ≡ false) × (length cs < length p)
unfolding skip_slashes
skip_slashes-head [] h = cc h
skip_slashes-head (d ∷ ds) {c} {cs} h = elim (Bool-cases (d == slash)) [
  | inl e ↦ let (f, l) = skip_slashes-head ds (rw e at h) in (f, omega (arith, l))
  | inr e ↦
      let same : d ∷ ds ≡ c ∷ cs = sym (skip_slashes-stop d ds e) ∙ h in
      (cc (e, same), omega (arith, ap length same))
]

length-scan : (p : List ℕ) → length (scan p).1 ≤ length p
unfolding scan
length-scan [] = omega arith
length-scan (c ∷ cs) = ground (arith, length-scan cs)

length-pop : (dir : List (List ℕ)) → length (pop dir) ≤ suc (length dir)
unfolding pop
length-pop [] = omega arith
length-pop (s ∷ dir) = omega arith

-- A segment that finds room does to the array what the name does to the directory.
store-resolve :
    (s : List ℕ) (ns dir : List (List ℕ))
    → ((more : List (List ℕ)) × (store s dir ≡ some more)
        × (resolve ns more ≡ resolve (s ∷ ns) dir)
        × (length more ≤ suc (length dir)))
      ⊎ ((store s dir ≡ none) × (64 ≤ length dir))
unfolding store resolve pop
store-resolve s ns dir = elim (Bool-cases (is_dot s)) [
  | inl d ↦ inl (dir, rw d refl, rw (sym (is_dot-same s) ∙ d) refl, omega arith)
  | inr d ↦
      let e = sym (is_dot-same s) ∙ d in
      elim (Bool-cases (is_dot_dot s)) [
        | inl dd ↦ inl (
          pop dir,
          rw (d, dd) refl,
          rw (e, sym (is_dot_dot-same s) ∙ dd) (ap (resolve ns) (pop-drop dir)),
          length-pop dir,
        )
        | inr dd ↦
            let ee = sym (is_dot_dot-same s) ∙ dd in
            elim (Bool-cases (ltb (length dir) 64)) [
              | inl room ↦ inl (s ∷ dir, rw (d, dd, room) refl, rw (e, ee) refl, omega arith)
              | inr full ↦ inr (rw (d, dd, full) refl, ground arith)
            ]
      ]
]

names-nil : names [] ≡ []
unfolding names fields is_name
names-nil = refl

length-scan-tail :
    (c : ℕ) (cs : List ℕ) → (c == slash) ≡ false → length (scan (c ∷ cs)).1 ≤ length cs
unfolding scan
length-scan-tail c cs e = rw e (length-scan cs)

-- What the loop gives: it follows the path, unless the path has more names than there is room for.
abbrev pub Follows : Segments → List ℕ → List (List ℕ) → Type 0
Follows r p dir =
    (r ≡ segments_are (resolve (names p) dir))
    ⊎ ((r ≡ too_many) × (64 < length dir + length (names p)))

-- The loop ends.
pub split-Follows :
    (fuel : ℕ) (p : List ℕ) (dir : List (List ℕ))
    → length p ≤ fuel
    → Follows (split fuel p dir) p dir
unfolding split resolve
split-Follows zero [] dir h = inl (ap (λ q. segments_are (resolve q dir)) (sym names-nil))
split-Follows zero (c ∷ cs) dir h = absurd (omega (arith, h))
split-Follows (suc fuel) p dir h = go (split-Follows fuel) (skip_slashes p) refl
  where
    go :
        ((q : List ℕ) (d : List (List ℕ)) → length q ≤ fuel → Follows (split fuel q d) q d)
        → (q : List ℕ) → skip_slashes p ≡ q
        → Follows (split (suc fuel) p dir) p dir
    go later [] e =
        let all : names p ≡ [] = sym (names-skip_slashes p) ∙ ap names e ∙ names-nil in
        inl (rw (e, split) (ap (λ q. segments_are (resolve q dir)) (sym all)))
    go later (c ∷ cs) e =
        let (stop, shorter) = skip_slashes-head p e in
        let segment = (scan (c ∷ cs)).0 in
        let rest = (scan (c ∷ cs)).1 in
        let all : names p ≡ segment ∷ names rest =
          sym (names-skip_slashes p) ∙ ap names e ∙ names-scan c cs stop in
        elim (store-resolve segment (names rest) dir) [
          | inr (full, room) ↦ inr (rw (e, full, split) refl, omega (arith, room, ap length all))
          | inl (more, stored, same, len) ↦
              elim (later rest more (omega (arith, length-scan-tail c cs stop, shorter, h))) [
                | inl done ↦ inl (
                    rw (e, stored, done, split)
                      (ap segments_are same ∙ ap (λ q. segments_are (resolve q dir)) (sym all)))
                | inr (many, room) ↦
                    inr (rw (e, stored, many, split) refl, omega (arith, room, len, ap length all))
              ]
        ]
