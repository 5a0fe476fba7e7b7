-- ===== src/Vfs/Fixed.antt =====
-- Normalised paths are left as they are by `vfs_normalize_path`.
use eter_os.Base.{
  take-all, ℕ, suc, ◌+◌, ◌≤◌, ◌<◌, ◌≡◌, refl, ◌∙◌, inl, inr, true, List, [], ◌∷◌, ◌++◌, length,
  take, filter, ◌≢◌, false, Bool-cases, arith, ==_ne, ap, sym,
}
use eter_os.Vfs.{slash, in_order, path_is, normalize_path}
use eter_os.Vfs.Split.{names, fields, is_name, same, same_true, resolve}
use eter_os.Vfs.Absolute.{starts, full_path}
use eter_os.Vfs.Join.{render, append-nil}
use eter_os.Vfs.Canonical.{
  canonical, canonical-in_order, NoSlash, AllClean, normalize_path-Normalizes,
}

fields-append :
    (s q : List ℕ)
    → NoSlash s
    → ((fields (s ++ q)).0 ≡ s ++ (fields q).0) × ((fields (s ++ q)).1 ≡ (fields q).1)
unfolding fields NoSlash
fields-append [] q h = (refl, refl)
fields-append (c ∷ cs) q (ne, h) =
    let (first, others) = fields-append cs q h in
    rw (==_ne c slash ne, fields) (ap (λ s. c ∷ s) first, others)

fields-render :
    (segments : List (List ℕ))
    → ((fields (render segments)).0 ≡ [])
      × (filter is_name (fields (render segments)).1 ≡ names (render segments))
unfolding names render fields is_name
fields-render [] = (refl, refl)
fields-render (s ∷ segments) = (refl, refl)

-- The path of clean names has these names.
is_name-named : (s : List ℕ) → s ≢ [] → is_name s ≡ true
unfolding is_name
is_name-named [] ne = absurd (ne refl)
is_name-named (c ∷ cs) ne = refl

names-render : (segments : List (List ℕ)) → AllClean segments → names (render segments) ≡ segments
unfolding names render AllClean fields is_name
names-render [] h = refl
names-render (s ∷ segments) (clean, h) =
    let (first, others) = fields-append s (render segments) clean.no_slash in
    let (nil, rest) = fields-render segments in
    let whole : (fields (s ++ render segments)).0 ≡ s =
      first ∙ ap (λ q. s ++ q) nil ∙ append-nil s in
    let later : filter is_name (fields (s ++ render segments)).1 ≡ segments =
      ap (filter is_name) others ∙ rest ∙ names-render segments h in
    rw (whole, later, is_name-named s clean.named) refl

same_ne : (s t : List ℕ) → s ≢ t → same s t ≡ false
same_ne s t ne = elim (Bool-cases (same s t)) [ inl e ↦ absurd (ne (same_true s t e)) | inr e ↦ e ]

resolve-in_order :
    (dir done : List (List ℕ)) → AllClean dir → resolve (in_order dir done) [] ≡ resolve done dir
unfolding resolve in_order AllClean
resolve-in_order [] done h = refl
resolve-in_order (s ∷ dir) done (clean, h) =
    resolve-in_order dir (s ∷ done) h
    ∙ rw (same_ne s _ clean.not_dot, same_ne s _ clean.not_dot_dot) refl

in_order-AllClean :
    (dir done : List (List ℕ)) → AllClean dir → AllClean done → AllClean (in_order dir done)
unfolding in_order AllClean
in_order-AllClean [] done h c = c
in_order-AllClean (s ∷ dir) done (clean, h) c = in_order-AllClean dir (s ∷ done) h (clean, c)

length-in_order : (dir done : List (List ℕ)) → length (in_order dir done) ≡ length dir + length done
unfolding in_order
length-in_order [] done = omega arith
length-in_order (s ∷ dir) done = omega (arith, length-in_order dir (s ∷ done))

-- The path of a directory has its names, the last one last.
names-canonical : (dir : List (List ℕ)) → AllClean dir → names (canonical dir) ≡ in_order dir []
unfolding canonical names fields is_name in_order AllClean
names-canonical [] h = refl
names-canonical (s ∷ dir) h =
    ap names (canonical-in_order s dir)
    ∙ names-render (in_order (s ∷ dir) []) (in_order-AllClean (s ∷ dir) [] h tt)

render-in_order :
    (dir : List (List ℕ)) (s : List ℕ) (done : List (List ℕ))
    → (q : List ℕ) × (render (in_order dir (s ∷ done)) ≡ slash ∷ q)
unfolding render in_order
render-in_order [] s done = (s ++ render done, refl)
render-in_order (t ∷ dir) s done = render-in_order dir t (s ∷ done)

canonical-slash : (dir : List (List ℕ)) → (q : List ℕ) × (canonical dir ≡ slash ∷ q)
unfolding canonical in_order
canonical-slash [] = ([], refl)
canonical-slash (s ∷ dir) =
    let (q, e) = render-in_order dir s [] in (q, canonical-in_order s dir ∙ e)

full_path-slash :
    (q base : List ℕ) → length (slash ∷ q) < 1024 → full_path (slash ∷ q) base ≡ slash ∷ q
unfolding full_path starts
full_path-slash q base h = take-all 1023 (slash ∷ q) (omega (arith, h))

full_path-canonical :
    (dir : List (List ℕ)) (base : List ℕ)
    → length (canonical dir) < 1024
    → full_path (canonical dir) base ≡ canonical dir
full_path-canonical dir base h =
    let (q, e) = canonical-slash dir in
    ap (λ p. full_path p base) e ∙ full_path-slash q base (omega (arith, h, ap length e)) ∙ sym e

-- A path of at most 64 names, none of which is empty, "." or ".." or has a slash, that fits the
-- internal array and the output, is its own normalised path, where the base directory is not empty.
pub normalize_path-canonical :
    (n : ℕ) (dir : List (List ℕ)) (base : List ℕ)
    → AllClean dir
    → length dir ≤ 64
    → length (canonical dir) < 1024
    → length (canonical dir) ≤ n
    → 0 < length base
    → normalize_path (suc n) (canonical dir) base true ≡ path_is (canonical dir)
unfolding resolve
normalize_path-canonical n dir base clean few short fits h =
    let r = normalize_path-Normalizes n (canonical dir) base h in
    let ns : names (full_path (canonical dir) base) ≡ in_order dir [] =
      ap names (full_path-canonical dir base short) ∙ names-canonical dir clean in
    elim r [
      | inl (done, c) ↦
          done
          ∙ ap (λ q. path_is (take n (canonical (resolve q [])))) ns
          ∙ ap (λ q. path_is (take n (canonical q))) (resolve-in_order dir [] clean)
          ∙ ap path_is (take-all n (canonical dir) fits)
      | inr (many, room) ↦ absurd (omega (arith, room, ap length ns, length-in_order dir [], few))
    ]
