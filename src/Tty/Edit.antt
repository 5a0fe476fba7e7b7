-- ===== src/Tty/Edit.antt =====
-- A line that is typed with corrections.
use eter_os.Base.{
  subst, sym, if_false, suc, ◌∙◌, Option, none, some, take, ◌-◌, ap, ℕ, ◌+◌, ◌≤◌, ◌<◌, ◌≡◌, refl,
  ◌⊎◌, inl, inr, Bool, true, false, ◌||◌, List, [], ◌∷◌, ◌++◌, length, length-append, arith, ltb,
  lt→ltb, ltb→lt, ◌==◌, ==_ne, Bool-cases, if◌then◌else◌,
}
use eter_os.Tty.{
  Reading, backspace, newline, carriage_return, Mode, Answer, returns, eagain, waits, after,
  drop_last, read_loop, tty_read,
}

-- The text after some keys, each a character or a correction.
unfoldable pub edit : List ℕ → List ℕ → List ℕ
edit text [] = text
edit text (c ∷ keys) =
    edit (if c == backspace then take (length text - 1) text else text ++ c ∷ []) keys

drop_last-take : (xs : List ℕ) → drop_last xs ≡ take (length xs - 1) xs
unfolding drop_last
drop_last-take [] = refl
drop_last-take (b ∷ []) = refl
drop_last-take (b ∷ c ∷ bs) =
    let next : suc (length (c ∷ bs) - 1) ≡ length (b ∷ c ∷ bs) - 1 = omega arith in
    ap (λ ys. b ∷ ys) (drop_last-take (c ∷ bs)) ∙ ap (λ n. take n (b ∷ c ∷ bs)) next

-- The keys of a list of keys and moments without one.
unfoldable pub typed : List (Option ℕ) → List ℕ
typed [] = []
typed (none ∷ keys) = typed keys
typed (some c ∷ keys) = c ∷ typed keys

-- With O_NONBLOCK there is a key at every moment.
unfoldable pub Waits : (nonblock : Bool) → List (Option ℕ) → Type 0
Waits nonblock [] = Unit
Waits nonblock (none ∷ keys) = (nonblock ≡ false) × Waits nonblock keys
Waits nonblock (some c ∷ keys) = Waits nonblock keys

-- No key ends the line.
unfoldable pub NoEnd : List ℕ → Type 0
NoEnd [] = Unit
NoEnd (c ∷ keys) = ((c == newline || c == carriage_return) ≡ false) × NoEnd keys

length-drop_last : (xs : List ℕ) → length (drop_last xs) ≤ length xs
unfolding drop_last
length-drop_last [] = omega arith
length-drop_last (b ∷ []) = omega arith
length-drop_last (b ∷ c ∷ bs) = omega (arith, length-drop_last (c ∷ bs))

end_key :
    (end : ℕ)
    → (end ≡ newline) ⊎ (end ≡ carriage_return)
    → ((end == backspace) ≡ false) × ((end == newline || end == carriage_return) ≡ true)
end_key end (inl e) = rw e (refl, refl)
end_key end (inr e) = rw e (refl, refl)

-- The loop in canonical mode, with room for every key.
read_loop-edit :
    (m : Mode) (size : ℕ) (line : List (Option ℕ)) (end : ℕ) (keys : List (Option ℕ))
    → (buffer : List ℕ) → m.icanon ≡ true
    → Waits m.nonblock line
    → NoEnd (typed line)
    → (end ≡ newline) ⊎ (end ≡ carriage_return)
    → length buffer + length (typed line) < size
    → ((read_loop m size (line ++ some end ∷ keys) buffer).answer
        ≡ returns (edit buffer (typed line) ++ newline ∷ []))
      × ((read_loop m size (line ++ some end ∷ keys) buffer).keys ≡ keys)
unfolding read_loop edit NoEnd after typed Waits
read_loop-edit m size [] end keys buffer canonical there ends e room =
    let space : ltb (length buffer) size ≡ true = lt→ltb _ _ (omega (arith, room)) in
    let (other, stop) = end_key end e in rw (space, canonical, other, stop) (refl, refl)
read_loop-edit m size (none ∷ line) end keys buffer canonical (block, there) ends e room =
    let space : ltb (length buffer) size ≡ true = lt→ltb _ _ (omega (arith, room)) in
    rw (space, block, read_loop)
      (read_loop-edit m size line end keys buffer canonical there ends e room)
read_loop-edit m size (some c ∷ line) end keys buffer canonical there (e, ends) is_end room =
    let space : ltb (length buffer) size ≡ true = lt→ltb _ _ (omega (arith, room)) in
    elim (Bool-cases (c == backspace)) [
      | inl b ↦
          let (answer, rest) =
            read_loop-edit m size line end keys (drop_last buffer) canonical there ends is_end
              (omega (arith, room, length-drop_last buffer)) in
          rw (space, canonical, b, read_loop, edit)
            (
              answer
                  ∙ ap (λ text. returns (edit text (typed line) ++ newline ∷ []))
                      (drop_last-take buffer),
              rest,
            )
      | inr b ↦
          let (answer, rest) =
            read_loop-edit m size line end keys (buffer ++ c ∷ []) canonical there ends is_end
              (omega (arith, room, length-append buffer (c ∷ []))) in
          rw (space, canonical, b, e, read_loop, edit) (answer, rest)
    ]

-- In canonical mode, a read of a line that ends with a newline or a carriage return, and that has
-- fewer keys than the buffer has bytes, returns the text, in which each backspace has taken the last
-- character away, and a newline, and leaves the later keys; with O_NONBLOCK, where a key is there each
-- time that the driver asks.
pub tty_read-edit :
    (m : Mode) (size : ℕ) (line : List (Option ℕ)) (end : ℕ) (keys : List (Option ℕ))
    → m.icanon ≡ true
    → Waits m.nonblock line
    → NoEnd (typed line)
    → (end ≡ newline) ⊎ (end ≡ carriage_return)
    → length (typed line) < size
    → ((tty_read m size (line ++ some end ∷ keys)).answer
        ≡ returns (edit [] (typed line) ++ newline ∷ []))
      × ((tty_read m size (line ++ some end ∷ keys)).keys ≡ keys)
unfolding tty_read
tty_read-edit m size line end keys canonical there ends e room =
    let some_room : (size == 0) ≡ false = ==_ne size 0 (λ z. omega (arith, z, room)) in
    rw some_room
      (read_loop-edit m size line end keys [] canonical there ends e (omega (arith, room)))

-- What a read of `size` bytes may answer.
unfoldable pub Fits : (nonblock : Bool) → ℕ → Answer → Type 0
Fits nonblock size (returns bytes) = length bytes ≤ size
Fits nonblock size eagain = nonblock ≡ true
Fits nonblock size (waits bytes) = (nonblock ≡ false) × (length bytes < size)

stopped :
    {size : ℕ} (buffer : List ℕ)
    → length buffer ≤ size
    → Fits true size (elim buffer [ [] ↦ eagain | b ∷ bs ↦ returns (b ∷ bs) ])
unfolding Fits
stopped [] h = refl
stopped (b ∷ bs) h = h

read_loop-Fits :
    (m : Mode) (size : ℕ) (keys : List (Option ℕ)) (buffer : List ℕ)
    → length buffer ≤ size
    → Fits m.nonblock size (read_loop m size keys buffer).answer
unfolding read_loop Fits after
read_loop-Fits m size [] buffer h = elim (Bool-cases (ltb (length buffer) size)) [
  | inr full ↦ rw full h
  | inl space ↦ elim (Bool-cases m.nonblock) [
    | inl n ↦ rw (space, n) (stopped buffer h)
    | inr n ↦ rw (space, n) (refl, ltb→lt _ _ space)
  ]
]
read_loop-Fits m size (none ∷ keys) buffer h = elim (Bool-cases (ltb (length buffer) size)) [
  | inr full ↦ rw full h
  | inl space ↦ elim (Bool-cases m.nonblock) [
    | inl n ↦ rw (space, n) (stopped buffer h)
    | inr n ↦ rw space (
        subst (λ (r : Reading). Fits m.nonblock size r.answer) (sym (if_false _ _ n))
          (read_loop-Fits m size keys buffer h))
  ]
]
read_loop-Fits m size (some c ∷ keys) buffer h =
    let longer = length-append buffer (c ∷ []) in
    let ended = length-append buffer (newline ∷ []) in
    let shorter =
      read_loop-Fits m size keys (drop_last buffer) (omega (arith, h, length-drop_last buffer)) in
    elim (Bool-cases (ltb (length buffer) size)) [
      | inr full ↦ rw full h
      | inl space ↦
          let room : length buffer < size = ltb→lt _ _ space in
          elim (Bool-cases m.icanon) [
            | inr raw ↦ rw (space, raw) (omega (arith, longer, room))
            | inl canonical ↦ elim (Bool-cases (c == backspace)) [
              | inl b ↦ rw (space, canonical, b, read_loop) shorter
              | inr b ↦ elim (Bool-cases (c == newline || c == carriage_return)) [
                | inl e ↦ rw (space, canonical, b, e) (omega (arith, ended, room))
                | inr e ↦
                    rw (space, canonical, b, e, read_loop)
                      (read_loop-Fits m size keys (buffer ++ c ∷ []) (omega (arith, longer, room)))
              ]
            ]
          ]
    ]

-- `tty_read` never stores more than `size` bytes, answers -EAGAIN only with O_NONBLOCK, and waits
-- for a key only without it and with room in the buffer.
pub tty_read-Fits :
    (m : Mode) (size : ℕ) (keys : List (Option ℕ))
    → Fits m.nonblock size (tty_read m size keys).answer
unfolding tty_read Fits
tty_read-Fits m size keys = elim (Bool-cases (size == 0)) [
  | inl none_wanted ↦ rw none_wanted (omega arith)
  | inr some_wanted ↦ rw some_wanted (read_loop-Fits m size keys [] (omega arith))
]
