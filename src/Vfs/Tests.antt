-- ===== src/Vfs/Tests.antt =====
-- The path "a/./b/../c" in the directory "/d".
use eter_os.Base.{ap, ℕ, ◌≡◌, refl, true, List, [], ◌∷◌, arith}
use eter_os.Vfs.{
  absolute, strlcpy, strlcat, last_char, skip_slashes, scan, is_dot, is_dot_dot, pop, store, split,
  build, join, in_order, path_is, normalize_path, bad_access,
}
use eter_os.Vfs.Absolute.{full_path}
use eter_os.Vfs.Canonical.{
  Normalizes, canonical, path_of, AllClean, NoSlash, normalize_path-Normalizes,
}
use eter_os.Vfs.Fixed.{normalize_path-canonical}

abbrev path : List ℕ
path = 97 ∷ 47 ∷ 46 ∷ 47 ∷ 98 ∷ 47 ∷ 46 ∷ 46 ∷ 47 ∷ 99 ∷ []

abbrev base : List ℕ
base = 47 ∷ 100 ∷ []

-- "/d/a/c".
normalized : normalize_path 100 path base true ≡ path_is (47 ∷ 100 ∷ 47 ∷ 97 ∷ 47 ∷ 99 ∷ [])
unfolding normalize_path absolute split build join in_order strlcpy strlcat last_char skip_slashes
    scan store is_dot is_dot_dot pop
normalized = refl

-- An output of four characters holds the path of another file.
cut : normalize_path 5 path base true ≡ path_is (47 ∷ 100 ∷ 47 ∷ 97 ∷ [])
unfolding normalize_path absolute split build join in_order strlcpy strlcat last_char skip_slashes
    scan store is_dot is_dot_dot pop
cut = refl

-- With an empty base directory the code reads the character before its array.
no_base : normalize_path 100 path [] true ≡ bad_access
unfolding normalize_path absolute strlcpy last_char
no_base = refl

normalize_path-Normalizes_example :
    Normalizes 99 (full_path path base) (normalize_path 100 path base true)
normalize_path-Normalizes_example = normalize_path-Normalizes 99 path base (omega arith)

abbrev dir : List (List ℕ)
dir = (99 ∷ []) ∷ (100 ∷ []) ∷ []

abbrev head_of : List ℕ → ℕ
head_of [] = 0
head_of (c ∷ cs) = c

dir-AllClean : AllClean dir
unfolding AllClean NoSlash
dir-AllClean = (
  record {
    named = λ e. cc e;
    not_dot = λ e. omega (arith, ap head_of e);
    not_dot_dot = λ e. omega (arith, ap head_of e);
    no_slash = (λ e. omega (arith, e), tt);
  },
  (
    record {
      named = λ e. cc e;
      not_dot = λ e. omega (arith, ap head_of e);
      not_dot_dot = λ e. omega (arith, ap head_of e);
      no_slash = (λ e. omega (arith, e), tt);
    },
    tt,
  ),
)

normalize_path-canonical_example :
    normalize_path 100 (canonical dir) base true ≡ path_is (47 ∷ 100 ∷ 47 ∷ 99 ∷ [])
unfolding canonical path_of
normalize_path-canonical_example =
    normalize_path-canonical 99 dir base dir-AllClean (omega arith) (omega arith) (omega arith)
      (omega arith)
