-- ===== src/Vfs/Canonical.antt =====
-- What `vfs_normalize_path` returns, as a list of names.
use mathlib.Core.Bool.{true≢false}
use eter_os.Base.{
  drop, ◌++◌, ℕ, zero, suc, ◌<◌, ◌≡◌, refl, ◌∙◌, ◌≢◌, ◌⊎◌, inl, inr, true, false, List, [], ◌∷◌,
  length, take, filter, arith, ==_ne, Bool-cases, ap, sym, ◌==◌,
}
use eter_os.Vfs.{
  dot, slash, build, join, in_order, Normalized, path_is, enametoolong, normalize_path,
}
use eter_os.Vfs.Absolute.{full_path, absolute-full_path}
use eter_os.Vfs.Split.{names, fields, is_name, same, resolve, split-Follows}
use eter_os.Vfs.Join.{render, strlcpy-take, join-render, append-nil, append_assoc}

-- The names of a directory, with the last one first, in their order with a slash before each.
unfoldable pub path_of : List (List ℕ) → List ℕ
path_of [] = []
path_of (s ∷ dir) = path_of dir ++ slash ∷ s

-- The absolute path of a directory.
unfoldable pub canonical : List (List ℕ) → List ℕ
unfolding path_of
canonical [] = slash ∷ []
canonical (s ∷ dir) = path_of (s ∷ dir)

render-in_order :
    (dir done : List (List ℕ)) → render (in_order dir done) ≡ path_of dir ++ render done
unfolding render in_order path_of
render-in_order [] done = refl
render-in_order (s ∷ dir) done =
    render-in_order dir (s ∷ done) ∙ sym (append_assoc (path_of dir) (slash ∷ s) (render done))

pub canonical-in_order :
    (s : List ℕ) (dir : List (List ℕ)) → canonical (s ∷ dir) ≡ render (in_order (s ∷ dir) [])
unfolding canonical render
canonical-in_order s dir = sym (render-in_order (s ∷ dir) [] ∙ append-nil (path_of (s ∷ dir)))

unfoldable pub NoSlash : List ℕ → Type 0
NoSlash [] = Unit
NoSlash (c ∷ cs) = (c ≢ slash) × NoSlash cs

-- A name that a normalised path may have.
pub record IsClean (s : List ℕ) : Type 0 where
  pub named : s ≢ []
  pub not_dot : s ≢ dot ∷ []
  pub not_dot_dot : s ≢ dot ∷ dot ∷ []
  pub no_slash : NoSlash s

unfoldable pub AllClean : List (List ℕ) → Type 0
AllClean [] = Unit
AllClean (s ∷ dir) = IsClean s × AllClean dir

unfoldable AllNames : List (List ℕ) → Type 0
unfolding NoSlash
AllNames [] = Unit
AllNames (s ∷ ns) = ((is_name s ≡ true) × NoSlash s) × AllNames ns

not_slash : (c : ℕ) → (c == slash) ≡ false → c ≢ slash
not_slash c e same = ground arith

filter-AllNames :
    (s : List ℕ) (ns : List (List ℕ))
    → NoSlash s × AllNames (filter is_name ns)
    → AllNames (filter is_name (s ∷ ns))
unfolding is_name AllNames
filter-AllNames [] ns (h, t) = t
filter-AllNames (d ∷ ds) ns (h, t) = ((refl, h), t)

fields-NoSlash : (p : List ℕ) → NoSlash (fields p).0 × AllNames (filter is_name (fields p).1)
unfolding fields NoSlash AllNames
fields-NoSlash [] = (tt, tt)
fields-NoSlash (c ∷ cs) = elim (Bool-cases (c == slash)) [
  | inl e ↦ rw e (tt, filter-AllNames (fields cs).0 (fields cs).1 (fields-NoSlash cs))
  | inr e ↦ let (h, t) = fields-NoSlash cs in rw (e, fields) ((not_slash c e, h), t)
]

drop-AllClean : (dir : List (List ℕ)) → AllClean dir → AllClean (drop 1 dir)
unfolding AllClean
drop-AllClean [] h = tt
drop-AllClean (s ∷ dir) (h, t) = t

not_same : {s : List ℕ} (t : List ℕ) → same t t ≡ true → same s t ≡ false → s ≢ t
not_same t itself other e = true≢false (sym (ap (λ x. same x t) e ∙ itself) ∙ other)

name_not_nil : (s : List ℕ) → is_name s ≡ true → s ≢ []
unfolding is_name
name_not_nil [] h e = cc h
name_not_nil (c ∷ cs) h e = true≢false (sym h ∙ ap is_name e)

resolve-AllClean : (ns dir : List (List ℕ)) → AllNames ns → AllClean dir → AllClean (resolve ns dir)
unfolding resolve AllClean AllNames same
resolve-AllClean [] dir h c = c
resolve-AllClean (n ∷ ns) dir ((e, h), t) c = elim (Bool-cases (same n (dot ∷ []))) [
  | inl d ↦ rw (d, resolve) (resolve-AllClean ns dir t c)
  | inr d ↦ elim (Bool-cases (same n (dot ∷ dot ∷ []))) [
    | inl dd ↦ rw (d, dd, resolve) (resolve-AllClean ns (drop 1 dir) t (drop-AllClean dir c))
    | inr dd ↦
        rw (d, dd, resolve)
          (resolve-AllClean ns (n ∷ dir) t (
            record {
              named = name_not_nil n e;
              not_dot = not_same (dot ∷ []) refl d;
              not_dot_dot = not_same (dot ∷ dot ∷ []) refl dd;
              no_slash = h;
            },
            c,
          ))
  ]
]

take-nil : (n : ℕ) → take {A = ℕ} n [] ≡ []
take-nil zero = refl
take-nil (suc n) = refl

-- What normalising the absolute path `temp` gives, with `n` characters of room.
abbrev pub Normalizes : ℕ → List ℕ → Normalized → Type 0
Normalizes n temp r =
    ((r ≡ path_is (take n (canonical (resolve (names temp) []))))
      × AllClean (resolve (names temp) []))
    ⊎ ((r ≡ enametoolong) × (64 < length (names temp)))

names-AllClean : (p : List ℕ) → AllClean (resolve (names p) [])
unfolding names AllClean AllNames
names-AllClean p =
    resolve-AllClean (names p) [] (filter-AllNames (fields p).0 (fields p).1 (fields-NoSlash p)) tt

build-canonical : (n : ℕ) (dir : List (List ℕ)) → build (suc n) dir ≡ take n (canonical dir)
unfolding build canonical
build-canonical n [] = strlcpy-take (slash ∷ []) n
build-canonical n (s ∷ dir) =
    ap (λ out. join (suc n) out (in_order (s ∷ dir) [])) (sym (take-nil n))
    ∙ join-render n [] (in_order (s ∷ dir) [])
    ∙ ap (take n) (sym (canonical-in_order s dir))

-- With memory, an output of some size and a base directory that is not empty,
-- `vfs_normalize_path` always returns. It takes the path, behind the base directory unless it starts
-- with a slash, cut to 1023 characters. Its result is the path of the directory that the names of
-- this path lead to, where a dot stays and two dots go to the parent, cut to the output's size, and
-- none of its names is empty, ".", ".." or has a slash; or the path has more than 64 names and is
-- refused.
pub normalize_path-Normalizes :
    (n : ℕ) (path base : List ℕ)
    → 0 < length base
    → Normalizes n (full_path path base) (normalize_path (suc n) path base true)
unfolding normalize_path
normalize_path-Normalizes n path base h =
    let temp = full_path path base in
    let e = absolute-full_path path base h in
    let some_room : (suc n == 0) ≡ false = ==_ne (suc n) 0 (λ z. omega (arith, z)) in
    elim (split-Follows (length temp) temp [] (omega arith)) [
      | inr (many, room) ↦ inr (rw (e, many, some_room) refl, omega (arith, room))
      | inl done ↦ inl (
        rw (e, done, some_room) (ap path_is (build-canonical n (resolve (names temp) []))),
        names-AllClean temp,
      )
    ]
