-- ===== src/Tty/Device.antt =====
-- The state of a terminal of kernel/drivers/tty.c: tty_ioctl, tty_create_node and tty_close.
--
-- The node and the argument of a request are not NULL. What the node is filled with besides its state
-- is constant, and left out.
use eter_os.Base.{ℕ, Bool, not, ◌&&◌, Option, none, some, List, ◌==◌, if◌then◌else◌, bit_and, ◌+◌}
use eter_os.Tty.{Mode}

-- `struct termios`; `others` is its fields besides `c_lflag`, in their order.
pub record Termios : Type 0 where
  pub c_lflag : ℕ
  pub others : List ℕ

-- ISIG, ICANON and ECHO.
abbrev pub isig : ℕ
isig = 1

abbrev pub icanon_flag : ℕ
icanon_flag = 2

abbrev pub echo_flag : ℕ
echo_flag = 8

-- The flags that `tty_read` tests.
unfoldable pub mode_of : (nonblock : Bool) → Termios → Mode
mode_of nonblock t = record {
  echo = not (bit_and t.c_lflag echo_flag == 0);
  icanon = not (bit_and t.c_lflag icanon_flag == 0);
  nonblock = nonblock;
}

-- What a request writes to its argument, if anything.
pub data Reply : Type 0 where
  settings : Termios → Reply
  bytes : ℕ → Reply
  nothing invalid : Reply

-- `arg` is what the argument points to, and `has_input` the answer of `keyboard_has_input`.
unfoldable pub tty_ioctl :
    (has_input : Bool) → (request : ℕ) → (arg state : Termios) → Reply × Termios
tty_ioctl has_input request arg state =
    if request == 0x5401
    then (settings state, state)
    else if request == 0x5402
    then (nothing, arg)
    else if request == 0x541B
    then (bytes (if has_input then 1 else 0), state)
    else (invalid, state)

-- The two flags say whether `kmalloc` finds memory for the node and for its state.
unfoldable pub tty_create_node :
    (node_memory state_memory : Bool) → (zeros : List ℕ) → Option Termios
tty_create_node node_memory state_memory zeros =
    if node_memory && state_memory
    then some (record { c_lflag = echo_flag + icanon_flag + isig; others = zeros })
    else none

-- The state is gone.
unfoldable pub tty_close : Option Termios → Option Termios
tty_close state = none
