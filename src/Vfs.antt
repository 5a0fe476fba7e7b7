-- ===== src/Vfs.antt =====
-- `vfs_normalize_path` of kernel/fs/vfs.c, with `strlcpy` and `strlcat` of kernel/string.c.
--
-- A C string is the list of its characters, without the NUL that ends it. `base` is `base_dir`, or
-- the working directory of the task, or "/", as the code chooses it. The two pointers are not NULL.
mod Tests
pub mod Absolute
pub mod Split
pub mod Join
pub mod Canonical
pub mod Fixed
use eter_os.Base.{
  ℕ, zero, suc, ◌+◌, ◌-◌, Bool, true, false, ◌&&◌, Option, none, some, List, [], ◌∷◌, ◌++◌, length,
  take, ◌==◌, ltb, leb, if◌then◌else◌,
}

abbrev pub slash : ℕ
slash = 47

abbrev pub dot : ℕ
dot = 46

-- The string at `dest` after `strlcpy`, for a size that is not 0.
unfoldable pub strlcpy : (src : List ℕ) (size : ℕ) → List ℕ
strlcpy src size = if leb size (length src) then take (size - 1) src else src

-- The string at `dest` after `strlcat`.
unfoldable pub strlcat : (dest src : List ℕ) (size : ℕ) → List ℕ
unfolding strlcpy
strlcat dest src size =
    if leb size (length dest) then dest else dest ++ strlcpy src (size - length dest)

-- The last character: `s[strlen(s) - 1]`, which lies before the array for an empty string.
unfoldable pub last_char : List ℕ → Option ℕ
last_char [] = none
last_char (c ∷ []) = some c
last_char (c ∷ d ∷ cs) = last_char (d ∷ cs)

-- The absolute path in `temp`, or `none` for the access before the array.
unfoldable pub absolute : (path base : List ℕ) → Option (List ℕ)
unfolding strlcpy strlcat last_char
absolute path base =
    let relative : Option (List ℕ) = elim (last_char (strlcpy base 1024)) [
      | none ↦ none
      | some c ↦
          let temp = strlcpy base 1024 in
          let dir = if c == slash then temp else strlcat temp (slash ∷ []) 1024 in
          some (strlcat dir path 1024)
    ] in
    elim path [
      | [] ↦ relative
      | c ∷ cs ↦ if c == slash then some (strlcpy (c ∷ cs) 1024) else relative
    ]

unfoldable pub skip_slashes : List ℕ → List ℕ
skip_slashes [] = []
skip_slashes (c ∷ cs) = let rest = skip_slashes cs in if c == slash then rest else c ∷ cs

-- The segment up to a slash or the end, and what is behind the slash.
unfoldable pub scan : List ℕ → List ℕ × List ℕ
scan [] = ([], [])
scan (c ∷ cs) =
    let (segment, rest) = scan cs in if c == slash then ([], cs) else (c ∷ segment, rest)

unfoldable pub is_dot : List ℕ → Bool
is_dot (c ∷ []) = c == dot
is_dot _ = false

unfoldable pub is_dot_dot : List ℕ → Bool
is_dot_dot (c ∷ d ∷ []) = c == dot && d == dot
is_dot_dot _ = false

unfoldable pub pop : List (List ℕ) → List (List ℕ)
pop [] = []
pop (s ∷ segments) = segments

-- What a segment does to `segments`, the last one first, or `none` where the array is full.
unfoldable pub store : List ℕ → List (List ℕ) → Option (List (List ℕ))
unfolding is_dot is_dot_dot pop
store segment segments =
    if is_dot segment
    then some segments
    else if is_dot_dot segment
    then some (pop segments)
    else if ltb (length segments) 64
    then some (segment ∷ segments)
    else none

pub data Segments : Type 0 where
  segments_are : List (List ℕ) → Segments
  too_many : Segments
  out_of_fuel : Segments

-- The loop over `temp`.
unfoldable pub split : ℕ → List ℕ → List (List ℕ) → Segments
unfolding skip_slashes scan store
split zero p segments = elim p [ [] ↦ segments_are segments | _ ↦ out_of_fuel ]
split (suc fuel) p segments = elim (skip_slashes p) [
  | [] ↦ segments_are segments
  | c ∷ cs ↦ elim (store (scan (c ∷ cs)).0 segments) [
    | none ↦ too_many
    | some more ↦ split fuel (scan (c ∷ cs)).1 more
  ]
]

-- The loop that builds the result.
unfoldable pub join : (size : ℕ) → (out : List ℕ) → List (List ℕ) → List ℕ
unfolding strlcat
join size out [] = out
join size out (s ∷ segments) = join size (strlcat (strlcat out (slash ∷ []) size) s size) segments

unfoldable pub in_order : List (List ℕ) → List (List ℕ) → List (List ℕ)
in_order [] done = done
in_order (s ∷ segments) done = in_order segments (s ∷ done)

-- The output, from the segments with the last one first.
unfoldable pub build : (size : ℕ) → List (List ℕ) → List ℕ
unfolding join in_order strlcpy
build size [] = strlcpy (slash ∷ []) size
build size (s ∷ segments) = join size [] (in_order (s ∷ segments) [])

pub data Normalized : Type 0 where
  path_is : List ℕ → Normalized
  enoent enomem enametoolong : Normalized
  bad_access : Normalized

-- `allocated`: whether `kmalloc` finds memory. A negative size counts as 0.
unfoldable pub normalize_path : (size : ℕ) (path base : List ℕ) → (allocated : Bool) → Normalized
unfolding absolute split build
normalize_path size path base allocated =
    let normalized : Normalized = elim (absolute path base) [
      | none ↦ bad_access
      | some temp ↦ elim (split (length temp) temp []) [
        | too_many ↦ enametoolong
        | out_of_fuel ↦ bad_access
        | segments_are segments ↦ path_is (build size segments)
      ]
    ] in
    if size == 0 then enoent else if allocated then normalized else enomem
