-- ===== src/Memory/Move.antt =====
-- `memcpy` and `memmove` of kernel/string.c against one load and one store of the whole block.
use std.Path.{fun_ext}
use eter_os.Base.{
  ℕ, zero, suc, ◌+◌, ◌-◌, ◌*◌, ◌/◌, ◌%◌, ◌≤◌, ◌<◌, ◌≡◌, ◌∙◌, sym, ap, ap₂, subst, inl, inr, true,
  ◌&&◌, ◌||◌, ◌==◌, ltb, leb, if◌then◌else◌, if_true, if_false, Bool-cases, arith,
}
use eter_os.Memory.{Bytes, copy_unit, rep_movs, rep_movs_down, copy_rest, memcpy, memmove}
use eter_os.Memory.Units.{
  Upwards, copy_nothing, words_up, bytes_up, words_down, bytes_down, join_up, join_down, Upwards-le,
}

Upwards-rest : {n d s : ℕ} (k : ℕ) → k ≤ n → Upwards n d s → Upwards (n - k) (d + k) (s + k)
Upwards-rest k h (inl a) = inl (omega (arith, a))
Upwards-rest k h (inr a) = inr (omega (arith, a, h))

-- Words, and then the bytes of the rest.
block_up :
    (n d s : ℕ) (m : Bytes)
    → Upwards n d s
    → rep_movs 1 (n % 8) (d + n / 8 * 8) (s + n / 8 * 8) (rep_movs 8 (n / 8) d s m)
      ≡ copy_unit n d s m
block_up n d s m h =
    let sum : n / 8 * 8 + n % 8 ≡ n = omega arith in
    let rest : n - n / 8 * 8 ≡ n % 8 = omega arith in
    ap (rep_movs 1 (n % 8) (d + n / 8 * 8) (s + n / 8 * 8))
      (words_up (n / 8) d s m (Upwards-le (omega arith) h))
    ∙ bytes_up (n % 8) (d + n / 8 * 8) (s + n / 8 * 8) (copy_unit (n / 8 * 8) d s m) (
        subst (λ k. Upwards k (d + n / 8 * 8) (s + n / 8 * 8)) rest
          (Upwards-rest (n / 8 * 8) (omega arith) h))
    ∙ join_up (n / 8 * 8) (n % 8) d s m (Upwards-le (omega arith) h)
    ∙ ap (λ k. copy_unit k d s m) sum

-- From the top, the bytes of the rest and then words.
block_down :
    (n d s : ℕ) (m : Bytes)
    → s ≤ d
    → 0 < n
    → rep_movs_down 8
        (n / 8)
        (d + n - 1 - n % 8 - 7)
        (s + n - 1 - n % 8 - 7)
        (rep_movs_down 1 (n % 8) (d + n - 1) (s + n - 1) m)
      ≡ copy_unit n d s m
block_down n d s m h some =
    let sum : n / 8 * 8 + n % 8 ≡ n = omega arith in
    let top : (x : ℕ) → x + n - 1 ≡ x + n / 8 * 8 + n % 8 - 1 = λ x. omega arith in
    let word : (x : ℕ) → x + n - 1 - n % 8 - 7 ≡ x + n / 8 * 8 - 8 = λ x. omega (arith, some) in
    ap₂ (λ x y. rep_movs_down 8 (n / 8) x y (rep_movs_down 1 (n % 8) (d + n - 1) (s + n - 1) m))
      (word d) (word s)
    ∙ words_down (n / 8) d s (rep_movs_down 1 (n % 8) (d + n - 1) (s + n - 1) m) h
    ∙ ap (copy_unit (n / 8 * 8) d s) (
        ap₂ (λ x y. rep_movs_down 1 (n % 8) x y m) (top d) (top s)
        ∙ bytes_down (n % 8) (d + n / 8 * 8) (s + n / 8 * 8) m (omega (arith, h)))
    ∙ join_down (n / 8 * 8) (n % 8) d s m h
    ∙ ap (λ k. copy_unit k d s m) sum

copy_in_place : (n d : ℕ) (m : Bytes) → m ≡ copy_unit n d d m
unfolding copy_unit
copy_in_place n d m = fun_ext (λ a. place a)
  where
    place : (a : ℕ) → m a ≡ (if leb d a && ltb a (d + n) then m (d + (a - d)) else m a)
    place a = elim (Bool-cases (leb d a && ltb a (d + n))) [
      | inl h ↦ ap m (ground (arith, h)) ∙ sym (if_true _ _ h)
      | inr h ↦ sym (if_false _ _ h)
    ]

-- Whether the blocks overlap or not, `memmove` leaves what one load and one store of the whole
-- block leave.
pub memmove-copy_unit : (dest src n : ℕ) (m : Bytes) → memmove dest src n m ≡ copy_unit n dest src m
unfolding memmove
memmove-copy_unit dest src n m = elim (Bool-cases ((dest == src) || (n == 0))) [
  | inl nothing ↦ if_true _ _ nothing ∙ no_move dest src n m nothing
  | inr some ↦ if_false _ _ some ∙ elim (Bool-cases (ltb dest src)) [
    | inl low ↦ if_true _ _ low ∙ block_up n dest src m (inl (ground (arith, low)))
    | inr high ↦
        if_false _ _ high ∙ block_down n dest src m (ground (arith, high)) (ground (arith, some))
  ]
]
  where
    no_move :
        (dest src n : ℕ) (m : Bytes)
        → ((dest == src) || (n == 0)) ≡ true
        → m ≡ copy_unit n dest src m
    no_move dest src zero m h = sym (fun_ext (copy_nothing dest src m))
    no_move dest src (suc n) m h =
        copy_in_place (suc n) dest m ∙ ap (λ s. copy_unit (suc n) dest s m) (ground (arith, h))

-- A step of `memcpy` for the rest goes from `k` bytes to `k'`.
rest_up :
    (unit r k k' d s : ℕ) (m : Bytes)
    → (unit ≤ r → k' ≡ k + unit)
    → (r < unit → k' ≡ k)
    → Upwards k' d s
    → copy_rest unit r (d + k) (s + k) (copy_unit k d s m) ≡ copy_unit k' d s m
unfolding copy_rest
rest_up unit r k k' d s m more less h = elim (Bool-cases (leb unit r)) [
  | inl low ↦
      let e = more (ground (arith, low)) in
      if_true _ _ low
      ∙ join_up k unit d s m (subst (λ n. Upwards n d s) e h)
      ∙ ap (λ n. copy_unit n d s m) (sym e)
  | inr high ↦ if_false _ _ high ∙ ap (λ n. copy_unit n d s m) (sym (less (ground (arith, high))))
]

small_block :
    (n d s : ℕ) (m : Bytes)
    → Upwards n d s
    → copy_rest 1 (n % 2) (d + n / 2 * 2) (s + n / 2 * 2) (
        copy_rest 2
          (n % 4)
          (d + n / 4 * 4)
          (s + n / 4 * 4)
          (copy_rest 4 (n % 8) (d + n / 8 * 8) (s + n / 8 * 8) (rep_movs 8 (n / 8) d s m)))
      ≡ copy_unit n d s m
small_block n d s m h =
    ap
      (λ x.
        copy_rest 1 (n % 2) (d + n / 2 * 2) (s + n / 2 * 2)
          (copy_rest 2 (n % 4) (d + n / 4 * 4) (s + n / 4 * 4) x))
      (ap (copy_rest 4 (n % 8) (d + n / 8 * 8) (s + n / 8 * 8))
          (words_up (n / 8) d s m (Upwards-le (omega arith) h))
        ∙ rest_up 4 (n % 8) (n / 8 * 8) (n / 4 * 4) d s m (λ a. omega (arith, a))
            (λ a. omega (arith, a)) (Upwards-le (omega arith) h))
    ∙ ap (copy_rest 1 (n % 2) (d + n / 2 * 2) (s + n / 2 * 2)) (
        rest_up 2 (n % 4) (n / 4 * 4) (n / 2 * 2) d s m (λ a. omega (arith, a))
          (λ a. omega (arith, a)) (Upwards-le (omega arith) h))
    ∙ rest_up 1 (n % 2) (n / 2 * 2) n d s m (λ a. omega (arith, a)) (λ a. omega (arith, a)) h

-- Where the blocks do not overlap, or the destination lies before the source, `memcpy` leaves what
-- one load and one store of the whole block leave.
pub memcpy-copy_unit :
    (dest src n : ℕ) (m : Bytes) → Upwards n dest src → memcpy dest src n m ≡ copy_unit n dest src m
unfolding memcpy
memcpy-copy_unit dest src n m h = elim (Bool-cases (ltb n 64)) [
  | inl few ↦ if_true _ _ few ∙ small_block n dest src m h
  | inr many ↦ if_false _ _ many ∙ block_up n dest src m h
]
