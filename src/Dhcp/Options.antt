-- ===== src/Dhcp/Options.antt =====
-- `dhcp_parse_options` of kernel/net/core/dhcp_parser.c loads nothing outside its buffer and ends.
use eter_os.Base.{
  ℕ, zero, suc, ◌+◌, ◌-◌, ◌≤◌, ◌<◌, ◌≡◌, refl, inl, inr, List, leb, ltb, ◌==◌, arith, length,
  Bool-cases, tests, dec_lt, lt→ltb, not_lt→ltb,
}
use eter_os.Dhcp.{
  Outcome, value, Config, process, option_step, options_loop, parse_options, fixed_dhcp_size,
}
use eter_os.Dhcp.Safety.{byte_inside, load4_inside}

abbrev pub Succeeds : {A : Type 0} → Outcome A → Type 0
Succeeds {A} r = (a : A) × (r ≡ value a)

module _ (buffer : List ℕ) (len : ℕ) (room : len ≤ length buffer) where
  process_total :
      (kind n opt : ℕ) (cfg : Config) → opt + n ≤ len → Succeeds (process buffer kind n opt cfg)
  unfolding process
  process_total kind n opt cfg h = elim (Bool-cases (leb 4 n)) [
    | inr short ↦ (cfg, ground arith)
    | inl long ↦
        let (b, e) = load4_inside buffer opt (omega (tests, long)) in
        elim (Bool-cases (kind == 1)) [
          | inl k1 ↦ (record cfg { mask = b }, rw (k1, long, e) refl)
          | inr k1 ↦ elim (Bool-cases (kind == 3)) [
            | inl k3 ↦ (record cfg { gw = b }, rw (k1, k3, long, e) refl)
            | inr k3 ↦ elim (Bool-cases (kind == 6)) [
              | inl k6 ↦ (record cfg { dns = b }, rw (k1, k3, k6, long, e) refl)
              | inr k6 ↦ (cfg, rw (k1, k3, k6) refl)
            ]
          ]
        ]
  ]

  option_step_total :
      (opt kind : ℕ) (cfg : Config) (next : ℕ → Config → Outcome Config)
      → ((opt' : ℕ) (c : Config) → opt < opt' → Succeeds (next opt' c))
      → Succeeds (option_step buffer len opt kind cfg next)
  unfolding option_step
  option_step_total opt kind cfg next more = elim (Bool-cases (ltb len (opt + 2))) [
    | inl stop ↦ (cfg, rw stop refl)
    | inr room2 ↦
        let (n, e) = byte_inside buffer (opt + 1) (ground arith) in
        elim (Bool-cases (ltb len (opt + 2 + n))) [
          | inl stop ↦ (cfg, rw (room2, e, stop) refl)
          | inr fits ↦
              let (c, f) = process_total kind n (opt + 2) cfg (ground arith) in
              let (r, g) = more (opt + 2 + n) c (omega arith) in (r, rw (room2, e, fits, f) g)
        ]
  ]

  options_loop_total :
      (fuel opt : ℕ) (cfg : Config)
      → len - opt < fuel
      → Succeeds (options_loop fuel buffer len opt cfg)
  unfolding options_loop
  options_loop_total zero opt cfg h = absurd (omega arith)
  options_loop_total (suc fuel) opt cfg h = elim (dec_lt opt len) [
    | no out ↦ (cfg, rw (not_lt→ltb _ _ out) refl)
    | yes in_ ↦
        let (k, e) = byte_inside buffer opt (omega arith) in
        elim (Bool-cases (k == 255)) [
          | inl end ↦ (cfg, rw (lt→ltb _ _ in_, e, end) refl)
          | inr more ↦ elim (Bool-cases (k == 0)) [
            | inl pad ↦
                let (r, f) = options_loop_total fuel (opt + 1) cfg (omega arith) in
                (r, rw (lt→ltb _ _ in_, e, more, pad) f)
            | inr option ↦
                let (r, f) =
                  option_step_total opt k cfg (options_loop fuel buffer len)
                    (λ opt' c l. options_loop_total fuel opt' c (omega arith)) in
                (r, rw (lt→ltb _ _ in_, e, more, option) f)
          ]
        ]
  ]

  -- Given a buffer of `len` bytes, `dhcp_parse_options` loads nothing outside it and returns.
  pub parse_options_total : (cfg : Config) → Succeeds (parse_options buffer len cfg)
  unfolding parse_options
  parse_options_total cfg = elim (Bool-cases (leb len fixed_dhcp_size)) [
    | inl short ↦ (cfg, rw short refl)
    | inr long ↦
        let (r, f) = options_loop_total (suc len) fixed_dhcp_size cfg (omega arith) in
        (r, rw long f)
  ]
