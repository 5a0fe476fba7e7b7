-- ===== src/Dhcp/Safety.antt =====
-- The DHCP parser of kernel/net/core/dhcp_parser.c stays inside its buffer and ends.
use eter_os.Base.{
  ℕ, zero, suc, ◌+◌, ◌-◌, ◌*◌, ◌%◌, ◌≤◌, ◌<◌, ◌≡◌, refl, Bool, true, false, some, List, [], ◌∷◌,
  leb, ◌==◌, get_elem?, arith, length, leb→le, tests, ==_iff,
}
use eter_os.Dhcp.{
  Outcome, value, reject, ◌>>=◌, require, byte, load16, load32, load4, htons, htonl, parse_ip,
  parse_udp, check_dhcp, parse_offer, eth_size, fixed_dhcp_size,
}

-- A load inside the buffer succeeds.
get_elem?_inside : (xs : List ℕ) (i : ℕ) → i < length xs → (b : ℕ) × (get_elem? xs i ≡ some b)
get_elem?_inside [] i h = absurd (omega arith)
get_elem?_inside (x ∷ xs) zero h = (x, refl)
get_elem?_inside (x ∷ xs) (suc i) h = get_elem?_inside xs i (omega arith)

pub byte_inside : (xs : List ℕ) (i : ℕ) → i < length xs → (b : ℕ) × (byte xs i ≡ value b)
unfolding byte
byte_inside xs i h = let (b, e) = get_elem?_inside xs i h in (b, rw (e, byte) refl)

load16_inside : (xs : List ℕ) (i : ℕ) → i + 1 < length xs → (b : ℕ) × (load16 xs i ≡ value b)
unfolding load16
load16_inside xs i h =
    let (b, e) = byte_inside xs i (omega arith) in
    let (c, f) = byte_inside xs (i + 1) h in (b + 256 * c, rw (e, f) refl)

load32_inside : (xs : List ℕ) (i : ℕ) → i + 3 < length xs → (b : ℕ) × (load32 xs i ≡ value b)
unfolding load32
load32_inside xs i h =
    let (b, e) = load16_inside xs i (omega arith) in
    let (c, f) = load16_inside xs (i + 2) (omega arith) in (b + 65536 * c, rw (e, f) refl)

pub load4_inside : (xs : List ℕ) (i : ℕ) → i + 3 < length xs → (b : List ℕ) × (load4 xs i ≡ value b)
unfolding load4
load4_inside xs i h =
    let (a, e) = byte_inside xs i (omega arith) in
    let (b, f) = byte_inside xs (i + 1) (omega arith) in
    let (c, g) = byte_inside xs (i + 2) (omega arith) in
    let (d, k) = byte_inside xs (i + 3) (omega arith) in (a ∷ b ∷ c ∷ d ∷ [], rw (e, f, g, k) refl)

-- A computation that does not fault, with what holds of its value.
pub data Ensures {A : Type 0} (P : A → Type 0) : Outcome A → Type 0 where
  returns : {a : A} → P a → Ensures P (value a)
  rejects : Ensures P reject

bind :
    {A B : Type 0} {P : A → Type 0} {Q : B → Type 0} {r : Outcome A} {f : A → Outcome B}
    → Ensures P r
    → ((a : A) → P a → Ensures Q (f a))
    → Ensures Q (r >>= f)
bind (returns p) next = next _ p
bind rejects next = rejects

check :
    {B : Type 0} {Q : B → Type 0} {k : Outcome B} (b : Bool)
    → (b ≡ true → Ensures Q k)
    → Ensures Q (require b >>= λ _. k)
check true next = next refl
check false next = rejects

check_last : {Q : Unit {0} → Type 0} (b : Bool) → (b ≡ true → Q tt) → Ensures Q (require b)
check_last true last = returns (last refl)
check_last false last = rejects

-- A load that succeeds, followed by the rest.
load :
    {A B : Type 0} {Q : B → Type 0} {f : A → Outcome B} {r : Outcome A}
    → ((a : A) × (r ≡ value a))
    → ((a : A) → r ≡ value a → Ensures Q (f a))
    → Ensures Q (r >>= f)
load (a, e) next = rw e (next a e)

-- A frame whose bytes are a DHCP reply: `at` is the offset of the packet and `n` its length.
pub record IsOffer (buffer : List ℕ) (len xid : ℕ) (found : ℕ × ℕ) : Type 0 where
  pub inside : found.0 + found.1 ≤ len
  pub long_enough : fixed_dhcp_size ≤ found.1
  pub eth_type : load16 buffer 12 ≡ value (htons 0x0800)
  pub proto : byte buffer 23 ≡ value 17
  pub header :
      (v : ℕ) × (byte buffer 14 ≡ value v) × (20 ≤ v % 16 * 4) × (found.0 ≡ 14 + v % 16 * 4 + 8)
  pub port : load16 buffer (found.0 - 6) ≡ value (htons 68)
  pub packet_xid : load32 buffer (found.0 + 4) ≡ value (htonl xid)
  pub op : byte buffer found.0 ≡ value 2

abbrev IpAt : List ℕ → ℕ → ℕ → Type 0
IpAt buffer len u =
    (u ≤ len)
    × (load16 buffer 12 ≡ value (htons 0x0800))
    × (byte buffer 23 ≡ value 17)
    × ((v : ℕ) × (byte buffer 14 ≡ value v) × (20 ≤ v % 16 * 4) × (u ≡ 14 + v % 16 * 4))

module _ (buffer : List ℕ) (len : ℕ) (room : len ≤ length buffer) where
  parse_ip_safe : Ensures (IpAt buffer len) (parse_ip buffer len)
  unfolding parse_ip
  parse_ip_safe = check (leb eth_size len) λ h1.
      load (load16_inside buffer 12 (omega (tests, h1))) λ t e1. check (t == htons 0x0800) λ h2.
        check (leb 34 len) λ h3. load (byte_inside buffer 23 (omega (tests, h3))) λ p e2.
          check (p == 17) λ h4. load (byte_inside buffer 14 (omega (tests, h3))) λ v e3.
            check (leb 20 (v % 16 * 4)) λ h5. check (leb (14 + v % 16 * 4) len) λ h6. returns (
              leb→le _ _ h6,
              rw ((==_iff _ _).0 h2) at e1,
              rw ((==_iff _ _).0 h4) at e2,
              (v, e3, leb→le _ _ h5, refl),
            )

  parse_udp_safe :
      (u : ℕ)
      → Ensures
          (λ n. (load16 buffer (u + 2) ≡ value (htons 68)) × (u + 8 + n ≤ len))
          (parse_udp buffer len u)
  unfolding parse_udp
  parse_udp_safe u = check (leb (u + 8) len) λ h1.
      load (load16_inside buffer (u + 2) (omega (tests, h1))) λ d e1. check (d == htons 68) λ h2.
        load (load16_inside buffer (u + 4) (omega (tests, h1))) λ n e2.
          check (leb 8 (htons n)) λ h3.
            check (leb (u + htons n) len)
              λ h4. returns (rw ((==_iff _ _).0 h2) at e1, omega (tests, h3, h4))

  check_dhcp_safe :
      (xid at n : ℕ)
      → Ensures
          (λ _.
            (fixed_dhcp_size ≤ n)
            × (load32 buffer (at + 4) ≡ value (htonl xid))
            × (byte buffer at ≡ value 2))
          (check_dhcp buffer len xid at n)
  unfolding check_dhcp
  check_dhcp_safe xid at n = check (leb 240 n) λ h1. check (leb (at + 240) len) λ h2.
      load (load32_inside buffer (at + 4) (omega (tests, h2))) λ x e1. check (x == htonl xid) λ h3.
        load (byte_inside buffer at (omega (tests, h2))) λ o e2.
          check_last (o == 2)
            λ h4. (leb→le _ _ h1, rw ((==_iff _ _).0 h3) at e1, rw ((==_iff _ _).0 h4) at e2)

  -- Given a buffer of `len` bytes, `dhcp_parse_offer` loads nothing outside it, and what it accepts
  -- is a DHCP reply to the request `xid`, whole inside the frame.
  pub parse_offer_safe : (xid : ℕ) → Ensures (IsOffer buffer len xid) (parse_offer buffer len xid)
  unfolding parse_offer
  parse_offer_safe xid = bind parse_ip_safe λ u ip. bind (parse_udp_safe u) λ n udp.
      bind (check_dhcp_safe xid (u + 8) n) λ _ dhcp.
        let port : u + 8 - 6 ≡ u + 2 = omega arith in
        returns (record {
          inside = udp.1;
          long_enough = dhcp.0;
          eth_type = ip.1;
          proto = ip.2;
          header = (ip.3.0, ip.3.1, ip.3.2, omega (arith, ip.3.3));
          port = rw port udp.0;
          packet_xid = dhcp.1;
          op = dhcp.2;
        })
