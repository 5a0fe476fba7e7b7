-- ===== src/Memory/Units.antt =====
-- The string instructions of kernel/string.c against one load and one store.
use std.Path.{fun_ext}
use eter_os.Base.{
  ℕ, zero, suc, ◌+◌, ◌-◌, ◌*◌, ◌≤◌, ◌≡◌, refl, ◌∙◌, sym, ap, ap₂, subst, ◌⊎◌, inl, inr, arith,
}
use eter_os.Memory.{Bytes, copy_unit, rep_movs, rep_movs_down}

-- A copy from low to high addresses does not overwrite what it reads later.
abbrev pub Upwards : (n d s : ℕ) → Type 0
Upwards n d s = (d ≤ s) ⊎ (s + n ≤ d)

pub copy_nothing : (d s : ℕ) (m : Bytes) (a : ℕ) → copy_unit 0 d s m a ≡ m a
unfolding copy_unit
copy_nothing d s m a = ground arith

copy_then_copy :
    (n k d s : ℕ) (m : Bytes)
    → Upwards (n + k) d s
    → (a : ℕ) → copy_unit k (d + n) (s + n) (copy_unit n d s m) a ≡ copy_unit (n + k) d s m a
unfolding copy_unit
copy_then_copy n k d s m (inl h) a = ground (arith, h)
copy_then_copy n k d s m (inr h) a = ground (arith, h)

copy_down :
    (n k d s : ℕ) (m : Bytes)
    → s ≤ d
    → (a : ℕ) → copy_unit n d s (copy_unit k (d + n) (s + n) m) a ≡ copy_unit (n + k) d s m a
unfolding copy_unit
copy_down n k d s m h a = ground (arith, h)

-- The length of a block of units.
unfoldable span : (unit count : ℕ) → ℕ
span unit zero = 0
span unit (suc count) = unit + span unit count

span_eight : (count : ℕ) → span 8 count ≡ count * 8
unfolding span
span_eight zero = refl
span_eight (suc count) = omega (arith, span_eight count)

span_one : (count : ℕ) → span 1 count ≡ count
unfolding span
span_one zero = refl
span_one (suc count) = omega (arith, span_one count)

rep_movs-copy_unit :
    (unit count d s : ℕ) (m : Bytes)
    → Upwards (span unit count) d s
    → rep_movs unit count d s m ≡ copy_unit (span unit count) d s m
unfolding rep_movs span
rep_movs-copy_unit unit zero d s m h = sym (fun_ext (copy_nothing d s m))
rep_movs-copy_unit unit (suc count) d s m h =
    rep_movs-copy_unit unit count (d + unit) (s + unit) (copy_unit unit d s m) (later h)
    ∙ fun_ext (copy_then_copy unit (span unit count) d s m h)
  where
    later : Upwards (unit + span unit count) d s → Upwards (span unit count) (d + unit) (s + unit)
    later (inl h) = inl (omega (arith, h))
    later (inr h) = inr (omega (arith, h))

-- The last unit of a copy from high to low addresses stands at `d` and `s`.
rep_movs_down-copy_unit :
    (unit count d s : ℕ) (m : Bytes)
    → s ≤ d
    → rep_movs_down unit count (d + span unit count - unit) (s + span unit count - unit) m
      ≡ copy_unit (span unit count) d s m
unfolding rep_movs_down span
rep_movs_down-copy_unit unit zero d s m h = sym (fun_ext (copy_nothing d s m))
rep_movs_down-copy_unit unit (suc count) d s m h =
    let top : (x : ℕ) → x + (unit + span unit count) - unit ≡ x + span unit count =
      λ x. omega arith in
    ap₂ (λ x y. rep_movs_down unit count (x - unit) (y - unit) (copy_unit unit x y m)) (top d)
      (top s)
    ∙ rep_movs_down-copy_unit unit count d s
        (copy_unit unit (d + span unit count) (s + span unit count) m) h
    ∙ fun_ext (copy_down (span unit count) unit d s m h)
    ∙ ap (λ n. copy_unit n d s m) (omega arith)

-- Eight bytes at a time, and one at a time.
module _ (count d s : ℕ) (m : Bytes) where
  pub words_up : Upwards (count * 8) d s → rep_movs 8 count d s m ≡ copy_unit (count * 8) d s m
  words_up h =
      subst (λ n. Upwards n d s → rep_movs 8 count d s m ≡ copy_unit n d s m) (span_eight count)
        (rep_movs-copy_unit 8 count d s m) h

  pub bytes_up : Upwards count d s → rep_movs 1 count d s m ≡ copy_unit count d s m
  bytes_up h =
      subst (λ n. Upwards n d s → rep_movs 1 count d s m ≡ copy_unit n d s m) (span_one count)
        (rep_movs-copy_unit 1 count d s m) h

  pub words_down :
      s ≤ d
      → rep_movs_down 8 count (d + count * 8 - 8) (s + count * 8 - 8) m
        ≡ copy_unit (count * 8) d s m
  words_down h =
      subst (λ n. rep_movs_down 8 count (d + n - 8) (s + n - 8) m ≡ copy_unit n d s m)
        (span_eight count) (rep_movs_down-copy_unit 8 count d s m h)

  pub bytes_down :
      s ≤ d → rep_movs_down 1 count (d + count - 1) (s + count - 1) m ≡ copy_unit count d s m
  bytes_down h =
      subst (λ n. rep_movs_down 1 count (d + n - 1) (s + n - 1) m ≡ copy_unit n d s m)
        (span_one count) (rep_movs_down-copy_unit 1 count d s m h)

-- Two copies that join are one.
pub join_up :
    (n k d s : ℕ) (m : Bytes)
    → Upwards (n + k) d s
    → copy_unit k (d + n) (s + n) (copy_unit n d s m) ≡ copy_unit (n + k) d s m
join_up n k d s m h = fun_ext (λ a. copy_then_copy n k d s m h a)

pub join_down :
    (n k d s : ℕ) (m : Bytes)
    → s ≤ d
    → copy_unit n d s (copy_unit k (d + n) (s + n) m) ≡ copy_unit (n + k) d s m
join_down n k d s m h = fun_ext (λ a. copy_down n k d s m h a)

pub Upwards-le : {n k d s : ℕ} → k ≤ n → Upwards n d s → Upwards k d s
Upwards-le h (inl a) = inl a
Upwards-le h (inr a) = inr (omega (arith, h, a))
