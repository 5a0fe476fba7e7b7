-- ===== src/Tty/Tests.antt =====
-- Two keys, a correction and another key on a terminal.
use eter_os.Base.{
  Option, none, some, true, false, ℕ, ◌≡◌, refl, inr, false, List, [], ◌∷◌, ◌++◌, arith,
}
use eter_os.Tty.Device.{Termios, Reply, settings, mode_of, tty_ioctl}
use eter_os.Tty.{Mode, default_mode, returns, waits, after, drop_last, read_loop, tty_read}
use eter_os.Tty.Edit.{edit, typed, Waits, NoEnd, Fits, tty_read-edit, tty_read-Fits}

abbrev line : List (Option ℕ)
line = some 97 ∷ none ∷ some 98 ∷ some 8 ∷ some 99 ∷ []

-- The echo of the backspace is followed by a blank and another backspace.
echoed :
    (tty_read default_mode 16 (line ++ some 13 ∷ [])).output ≡ 97 ∷ 98 ∷ 8 ∷ 32 ∷ 8 ∷ 99 ∷ 13 ∷ []
unfolding tty_read read_loop after drop_last
echoed = refl

waiting : (tty_read default_mode 16 line).answer ≡ waits (97 ∷ 99 ∷ [])
unfolding tty_read read_loop after drop_last
waiting = refl

-- With O_NONBLOCK a moment without a key ends the read.
partial : (tty_read (record default_mode { nonblock = true }) 16 line).answer ≡ returns (97 ∷ [])
unfolding tty_read read_loop after drop_last
partial = refl

-- The settings of a new terminal are those of the default mode, and a request reads them back.
new_mode : ◌≡◌ {A = Mode} (mode_of false (record { c_lflag = 11; others = [] })) default_mode
unfolding mode_of
new_mode = refl

read_back :
    (arg state : Termios)
    → ◌≡◌ {A = Reply × Termios}
        (tty_ioctl true 0x5401 state (tty_ioctl true 0x5402 arg state).1)
        (settings arg, arg)
unfolding tty_ioctl
read_back arg state = refl

line-Waits : Waits false line
unfolding Waits
line-Waits = (refl, tt)

line-NoEnd : NoEnd (typed line)
unfolding NoEnd typed
line-NoEnd = (refl, (refl, (refl, (refl, tt))))

tty_read-edit_example :
    ((tty_read default_mode 16 (line ++ some 13 ∷ some 120 ∷ [])).answer
      ≡ returns (97 ∷ 99 ∷ 10 ∷ []))
    × ((tty_read default_mode 16 (line ++ some 13 ∷ some 120 ∷ [])).keys ≡ some 120 ∷ [])
unfolding edit typed
tty_read-edit_example =
    tty_read-edit default_mode 16 line 13 (some 120 ∷ []) refl line-Waits line-NoEnd (inr refl)
      (omega arith)

tty_read-Fits_example : Fits false 2 (tty_read default_mode 2 line).answer
tty_read-Fits_example = tty_read-Fits default_mode 2 line
