-- ===== src/Memory/Tests.antt =====
-- Blocks that overlap, on a memory where each byte holds its address.
use eter_os.Base.{◌%◌, ◌≡◌, refl, arith}
use eter_os.Memory.{
  Bytes, copy_unit, rep_movs, rep_movs_down, copy_rest, memcpy, memmove, load_word, compare_loop,
  compare_words, memcmp,
}
use eter_os.Memory.Move.{memmove-copy_unit}
use eter_os.Memory.Compare.{Small, Compares, memcmp-Compares}

abbrev bytes : Bytes
bytes a = a % 256

bytes-Small : Small bytes
bytes-Small a = omega arith

memmove-copy_unit_example : memmove 12 10 20 bytes ≡ copy_unit 20 12 10 bytes
memmove-copy_unit_example = memmove-copy_unit 12 10 20 bytes

memcmp-Compares_example : Compares 3 259 12 bytes (memcmp 3 259 12 bytes)
memcmp-Compares_example = memcmp-Compares 3 259 12 bytes bytes-Small

-- The block is moved up by two bytes.
moved : memmove 12 10 20 bytes 31 ≡ 29
unfolding memmove rep_movs rep_movs_down copy_unit
moved = refl

-- `memcpy` would repeat the bytes that it has written.
copied : memcpy 18 10 20 bytes 31 ≡ 15
unfolding memcpy rep_movs copy_rest copy_unit
copied = refl

compared : memcmp 3 259 12 bytes ≡ 0
unfolding memcmp compare_words compare_loop load_word
compared = refl
