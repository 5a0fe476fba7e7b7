-- ===== src/Memory.antt =====
-- The block operations of kernel/string.c on x86-64.
--
-- The memory is a function from addresses to bytes, and a block does not wrap around the address
-- space. A load or store of several bytes at once is `copy_unit`. The string instructions go on by
-- one unit at a time; their pointers behind the last unit are not used.
pub mod Units
pub mod Move
pub mod Compare
mod Tests
use eter_os.Base.{
  ℕ, zero, suc, ◌+◌, ◌-◌, ◌*◌, ◌/◌, ◌%◌, Bool, true, false, not, ◌&&◌, ◌||◌, ◌==◌, ltb, leb,
  if◌then◌else◌, sub32,
}

abbrev pub Bytes : Type 0
Bytes = ℕ → ℕ

-- One load of `n` bytes at `src` and one store at `dest`.
unfoldable pub copy_unit : (n dest src : ℕ) → Bytes → Bytes
copy_unit n dest src m a = if leb dest a && ltb a (dest + n) then m (src + (a - dest)) else m a

-- `cld; rep movs`, and the loop over 8 bytes of `memcpy`.
unfoldable pub rep_movs : (unit count d s : ℕ) → Bytes → Bytes
unfolding copy_unit
rep_movs unit zero d s m = m
rep_movs unit (suc count) d s m = rep_movs unit count (d + unit) (s + unit) (copy_unit unit d s m)

-- `std; rep movs`.
unfoldable pub rep_movs_down : (unit count d s : ℕ) → Bytes → Bytes
unfolding copy_unit
rep_movs_down unit zero d s m = m
rep_movs_down unit (suc count) d s m =
    rep_movs_down unit count (d - unit) (s - unit) (copy_unit unit d s m)

-- A step of `memcpy` for a bit of the rest: the bytes that are left after it.
unfoldable pub copy_rest : (unit n d s : ℕ) → Bytes → Bytes
unfolding copy_unit
copy_rest unit n d s m = if leb unit n then copy_unit unit d s m else m

unfoldable pub memcpy : (dest src n : ℕ) → Bytes → Bytes
unfolding rep_movs copy_rest
memcpy dest src n m =
    let words = n / 8 * 8 in
    let m₁ = rep_movs 8 (n / 8) dest src m in
    if ltb n 64
    then (let m₂ = copy_rest 4 (n % 8) (dest + words) (src + words) m₁ in
        let halves = n / 4 * 4 in
        let m₃ = copy_rest 2 (n % 4) (dest + halves) (src + halves) m₂ in
        let pairs = n / 2 * 2 in copy_rest 1 (n % 2) (dest + pairs) (src + pairs) m₃)
    else rep_movs 1 (n % 8) (dest + words) (src + words) m₁

unfoldable pub memmove : (dest src n : ℕ) → Bytes → Bytes
unfolding rep_movs rep_movs_down
memmove dest src n m =
    let words = n / 8 * 8 in
    let d = dest + n - 1 in
    let s = src + n - 1 in
    if (dest == src) || (n == 0)
    then m
    else if ltb dest src
    then rep_movs 1 (n % 8) (dest + words) (src + words) (rep_movs 8 (n / 8) dest src m)
    else rep_movs_down 8 (n / 8) (d - n % 8 - 7) (s - n % 8 - 7) (rep_movs_down 1 (n % 8) d s m)

-- A load of `n` bytes as one number, the lowest byte first.
unfoldable pub load_word : (n a : ℕ) → Bytes → ℕ
load_word zero a m = 0
load_word (suc n) a m = m a + 256 * load_word n (a + 1) m

-- The loop over bytes of `memcmp`; the result is an int.
unfoldable pub compare_loop : (n a b : ℕ) → Bytes → ℕ
compare_loop zero a b m = 0
compare_loop (suc n) a b m =
    if m a == m b then compare_loop n (a + 1) (b + 1) m else sub32 (m a) (m b)

-- The loop over words, for at most `words` of them.
unfoldable pub compare_words : (words n a b : ℕ) → Bytes → ℕ
unfolding load_word compare_loop
compare_words zero n a b m = compare_loop n a b m
compare_words (suc words) n a b m =
    if load_word 8 a m == load_word 8 b m
    then compare_words words (n - 8) (a + 8) (b + 8) m
    else compare_loop n a b m

unfoldable pub memcmp : (s1 s2 n : ℕ) → Bytes → ℕ
unfolding compare_words
memcmp s1 s2 n m = compare_words (n / 8) n s1 s2 m
