-- ===== src/Vfs/Join.antt =====
-- The loop of `vfs_normalize_path` that builds the result, and its bounded copies.
use eter_os.Base.{
  take-all, ℕ, zero, suc, ◌+◌, ◌-◌, ◌≤◌, ◌≡◌, refl, ◌∙◌, inl, inr, List, [], ◌∷◌, ◌++◌, length,
  take, arith, leb, leb-false, Bool-cases, ap, sym,
}
use eter_os.Vfs.{slash, strlcpy, strlcat, join}

pub append-nil : (xs : List ℕ) → xs ++ [] ≡ xs
append-nil [] = refl
append-nil (x ∷ xs) = ap (λ ys. x ∷ ys) (append-nil xs)

pub append_assoc : (xs ys zs : List ℕ) → (xs ++ ys) ++ zs ≡ xs ++ (ys ++ zs)
append_assoc [] ys zs = refl
append_assoc (x ∷ xs) ys zs = ap (λ ws. x ∷ ws) (append_assoc xs ys zs)

-- The names with a slash before each.
unfoldable pub render : List (List ℕ) → List ℕ
render [] = []
render (s ∷ segments) = slash ∷ (s ++ render segments)

-- Two lists in a row, cut.
take-append : (n : ℕ) (xs ys : List ℕ) → take n (take n xs ++ ys) ≡ take n (xs ++ ys)
take-append zero xs ys = refl
take-append (suc n) [] ys = refl
take-append (suc n) (x ∷ xs) ys = ap (λ zs. x ∷ zs) (take-append n xs ys)

take-append-length : (xs ys : List ℕ) (n : ℕ) → xs ++ take n ys ≡ take (length xs + n) (xs ++ ys)
take-append-length [] ys n = ap (λ m. take m ys) (omega arith)
take-append-length (x ∷ xs) ys n =
    let longer : suc (length xs) + n ≡ suc (length xs + n) = omega arith in
    ap (λ zs. x ∷ zs) (take-append-length xs ys n) ∙ ap (λ m. take m (x ∷ (xs ++ ys))) (sym longer)

length-take : (n : ℕ) (xs : List ℕ) → length (take n xs) ≤ n
length-take zero xs = omega arith
length-take (suc n) [] = omega arith
length-take (suc n) (x ∷ xs) = omega (arith, length-take n xs)

-- `strlcpy` and `strlcat` cut what they write to the size.
pub strlcpy-take : (src : List ℕ) (n : ℕ) → strlcpy src (suc n) ≡ take n src
unfolding strlcpy
strlcpy-take src n = elim (Bool-cases (leb (suc n) (length src))) [
  | inl long ↦ ground arith
  | inr short ↦ rw short (sym (take-all n src (ground arith)))
]

-- A string that was cut to `n` characters is cut again.
pub strlcat-take :
    (out src : List ℕ) (n : ℕ) → strlcat (take n out) src (suc n) ≡ take n (out ++ src)
unfolding strlcat
strlcat-take out src n =
    let xs = take n out in
    let len = length-take n out in
    let room : suc n - length xs ≡ suc (n - length xs) = omega (arith, len) in
    let whole : length xs + (n - length xs) ≡ n = omega (arith, len) in
    rw (leb-false (suc n) (length xs) (omega (arith, len)), room, strlcpy-take src (n - length xs))
      (take-append-length xs src (n - length xs)
        ∙ ap (λ m. take m (xs ++ src)) whole
        ∙ take-append n out src)

-- The loop gives the names with a slash before each, cut to the size.
pub join-render :
    (n : ℕ) (out : List ℕ) (segments : List (List ℕ))
    → join (suc n) (take n out) segments ≡ take n (out ++ render segments)
unfolding join render
join-render n out [] = ap (take n) (sym (append-nil out))
join-render n out (s ∷ segments) =
    rw (strlcat-take out (slash ∷ []) n, strlcat-take (out ++ slash ∷ []) s n)
      (join-render n ((out ++ slash ∷ []) ++ s) segments
        ∙ ap (take n) (
            append_assoc (out ++ slash ∷ []) s (render segments)
            ∙ append_assoc out (slash ∷ []) (s ++ render segments)))
