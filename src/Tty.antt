-- ===== src/Tty.antt =====
-- kernel/drivers/tty.c: reading a terminal.
--
-- The keys that the keyboard driver has and will get are a list; an entry `none` is a moment without a
-- key, where a read with O_NONBLOCK stops and any other waits for the next. A read waits where the
-- list is empty. The output is what `terminal_putchar` and `serial_putchar` are given, which are the
-- same characters. The node and its state are not NULL.
pub mod Device
mod Tests
pub mod Edit
use eter_os.Base.{
  ℕ, zero, suc, ◌+◌, ◌-◌, Bool, true, false, not, ◌&&◌, ◌||◌, Option, none, some, List, [], ◌∷◌,
  ◌++◌, length, take, ◌==◌, ltb, if◌then◌else◌,
}

abbrev pub backspace : ℕ
backspace = 8

abbrev pub newline : ℕ
newline = 10

abbrev pub carriage_return : ℕ
carriage_return = 13

-- The flags of `c_lflag` that the driver reads, and O_NONBLOCK of the node.
pub record Mode : Type 0 where
  pub echo : Bool
  pub icanon : Bool
  pub nonblock : Bool

-- The mode that `tty_create_node` sets.
abbrev pub default_mode : Mode
default_mode = record { echo = true; icanon = true; nonblock = false }

-- What `tty_read` returns: the bytes, -EAGAIN, or it waits for a key with these bytes read.
pub data Answer : Type 0 where
  returns : List ℕ → Answer
  eagain : Answer
  waits : List ℕ → Answer

-- The answer, the keys that are left, and the output.
pub record Reading : Type 0 where
  pub answer : Answer
  pub keys : List (Option ℕ)
  pub output : List ℕ

-- Characters are put out before the rest of a reading.
unfoldable pub after : List ℕ → Reading → Reading
after out r = record r { output = out ++ r.output }

-- The bytes without the last one: `i--`.
unfoldable pub drop_last : List ℕ → List ℕ
drop_last [] = []
drop_last (b ∷ []) = []
drop_last (b ∷ c ∷ bs) = b ∷ drop_last (c ∷ bs)

-- The loop of `tty_read`; `buffer` is its first `i` bytes.
unfoldable pub read_loop :
    Mode → (size : ℕ) → (keys : List (Option ℕ)) → (buffer : List ℕ) → Reading
unfolding after drop_last
read_loop m size [] buffer =
    let stop : Answer =
      if m.nonblock
      then (elim buffer [ [] ↦ eagain | b ∷ bs ↦ returns (b ∷ bs) ])
      else waits buffer in
    record {
      answer = if ltb (length buffer) size then stop else returns buffer;
      keys = [];
      output = [];
    }
read_loop m size (none ∷ keys) buffer =
    let stop : Answer = elim buffer [ [] ↦ eagain | b ∷ bs ↦ returns (b ∷ bs) ] in
    let later = read_loop m size keys buffer in
    if not (ltb (length buffer) size)
    then record { answer = returns buffer; keys = none ∷ keys; output = [] }
    else if m.nonblock
    then record { answer = stop; keys = keys; output = [] }
    else later
read_loop m size (some c ∷ keys) buffer =
    let shown = if m.echo then c ∷ [] else [] in
    let erased =
      if ltb 0 (length buffer) && m.echo then shown ++ (32 ∷ backspace ∷ []) else shown in
    let on_backspace = read_loop m size keys (drop_last buffer) in
    let on_key = read_loop m size keys (buffer ++ c ∷ []) in
    if not (ltb (length buffer) size)
    then record { answer = returns buffer; keys = some c ∷ keys; output = [] }
    else if not m.icanon
    then record { answer = returns (buffer ++ c ∷ []); keys = keys; output = shown }
    else if c == backspace
    then after erased on_backspace
    else if c == newline || c == carriage_return
    then record { answer = returns (buffer ++ newline ∷ []); keys = keys; output = shown }
    else after shown on_key

unfoldable pub tty_read : Mode → (size : ℕ) → (keys : List (Option ℕ)) → Reading
unfolding read_loop
tty_read m size keys =
    if size == 0
    then record { answer = returns []; keys = keys; output = [] }
    else read_loop m size keys []

-- `tty_write`: the number of bytes, and the output.
unfoldable pub tty_write : (size : ℕ) → (buffer : List ℕ) → ℕ × List ℕ
tty_write size buffer = (size, take size buffer)
