-- ===== src/Dhcp.antt =====
-- kernel/net/core/dhcp_parser.c: a DHCP offer in a received frame, and its options.
--
-- A buffer is the list of its bytes, and a load outside it is a fault of the model, so that memory
-- safety is a statement. The pointers that the callers pass are not NULL. Offsets are far below
-- 2 ^ 64 and do not wrap: the lengths are those of buffers in memory.
pub mod Options
pub mod Safety
mod Tests
pub mod Roundtrip
use eter_os.Base.{
  ℕ, zero, suc, ◌+◌, ◌-◌, ◌*◌, ◌/◌, ◌%◌, Bool, true, false, ◌&&◌, Option, none, some, List, [], ◌∷◌,
  leb, ltb, ◌==◌, if◌then◌else◌, get_elem?,
}

-- A return value, the error return -1, or a load outside the buffer.
pub data Outcome (A : Type 0) : Type 0 where
  value : A → Outcome A
  reject : Outcome A
  fault : Outcome A

infixl 5 ◌>>=◌ ◌>>◌
abbrev pub ◌>>=◌ : {A B : Type 0} → Outcome A → (A → Outcome B) → Outcome B
value a >>= f = f a
reject >>= f = reject
fault >>= f = fault

abbrev pub ◌>>◌ : {B : Type 0} → Outcome (Unit {0}) → Outcome B → Outcome B
m >> k = m >>= λ _. k

-- `if (!test) return -1;`
abbrev pub require : Bool → Outcome (Unit {0})
require true = value tt
require false = reject

-- One byte of the buffer.
unfoldable pub byte : List ℕ → ℕ → Outcome ℕ
byte buffer i = elim (get_elem? buffer i) [ none ↦ fault | some b ↦ value b ]

-- Little-endian loads of a `uint16_t` and a `uint32_t`.
unfoldable pub load16 : List ℕ → ℕ → Outcome ℕ
load16 buffer i = do b0 ← byte buffer i; b1 ← byte buffer (i + 1); value (b0 + 256 * b1)

unfoldable pub load32 : List ℕ → ℕ → Outcome ℕ
load32 buffer i = do lo ← load16 buffer i; hi ← load16 buffer (i + 2); value (lo + 65536 * hi)

-- `htons` of include/net/defs.h, which is also `ntohs`.
unfoldable pub htons : ℕ → ℕ
htons v = v * 256 % 65536 + v / 256 % 256

-- `htonl`.
unfoldable pub htonl : ℕ → ℕ
htonl v = v % 256 * 16777216 + v / 256 % 256 * 65536 + v / 65536 % 256 * 256 + v / 16777216 % 256

-- The sizes of `struct ethernet_header`, `ip_header`, `udp_header` and of `dhcp_packet` less its
-- options.
abbrev pub eth_size : ℕ
eth_size = 14

abbrev pub ip_size : ℕ
ip_size = 20

abbrev pub udp_size : ℕ
udp_size = 8

abbrev pub fixed_dhcp_size : ℕ
fixed_dhcp_size = 240

-- Ethernet and IP: the offset of the UDP header.
unfoldable pub parse_ip : List ℕ → ℕ → Outcome ℕ
parse_ip buffer len = do
  require (leb eth_size len)
  eth_type ← load16 buffer 12
  require (eth_type == htons 0x0800)
  require (leb (eth_size + ip_size) len)
  proto ← byte buffer (eth_size + 9)
  require (proto == 17)
  ver_ihl ← byte buffer eth_size
  require (leb 20 (ver_ihl % 16 * 4))
  require (leb (eth_size + ver_ihl % 16 * 4) len)
  value (eth_size + ver_ihl % 16 * 4)

-- UDP: the length of the DHCP payload behind the UDP header.
unfoldable pub parse_udp : List ℕ → ℕ → (udp_offset : ℕ) → Outcome ℕ
parse_udp buffer len udp_offset = do
  require (leb (udp_offset + udp_size) len)
  dest_port ← load16 buffer (udp_offset + 2)
  require (dest_port == htons 68)
  udp_len ← load16 buffer (udp_offset + 4)
  require (leb udp_size (htons udp_len))
  require (leb (udp_offset + htons udp_len) len)
  value (htons udp_len - udp_size)

-- The DHCP header.
unfoldable pub check_dhcp : List ℕ → ℕ → (xid dhcp_offset dhcp_len : ℕ) → Outcome (Unit {0})
check_dhcp buffer len xid dhcp_offset dhcp_len = do
  require (leb fixed_dhcp_size dhcp_len)
  require (leb (dhcp_offset + fixed_dhcp_size) len)
  packet_xid ← load32 buffer (dhcp_offset + 4)
  require (packet_xid == htonl xid)
  op ← byte buffer dhcp_offset
  require (op == 2)

-- `dhcp_parse_offer`: the offset of the packet, and its length.
unfoldable pub parse_offer : List ℕ → (len xid : ℕ) → Outcome (ℕ × ℕ)
parse_offer buffer len xid = do
  udp_offset ← parse_ip buffer len
  dhcp_len ← parse_udp buffer len udp_offset
  check_dhcp buffer len xid (udp_offset + udp_size) dhcp_len
  value (udp_offset + udp_size, dhcp_len)

-- The three output parameters of `dhcp_parse_options`, each the four bytes as they were stored.
pub record Config : Type 0 where
  pub mask : List ℕ
  pub gw : List ℕ
  pub dns : List ℕ

-- The four bytes that `memcpy(out, opt, 4)` copies.
unfoldable pub load4 : List ℕ → ℕ → Outcome (List ℕ)
load4 buffer i = do
  b0 ← byte buffer i
  b1 ← byte buffer (i + 1)
  b2 ← byte buffer (i + 2)
  b3 ← byte buffer (i + 3)
  value (b0 ∷ b1 ∷ b2 ∷ b3 ∷ [])

-- One option whose data starts at `opt`.
unfoldable pub process : List ℕ → (kind length opt : ℕ) → Config → Outcome Config
process buffer kind length opt cfg =
    if kind == 1 && leb 4 length
    then (do b ← load4 buffer opt; value (record cfg { mask = b }))
    else if kind == 3 && leb 4 length
    then (do b ← load4 buffer opt; value (record cfg { gw = b }))
    else if kind == 6 && leb 4 length
    then (do b ← load4 buffer opt; value (record cfg { dns = b }))
    else value cfg

-- The rest of a round for an option that is neither the end nor padding; `next` is the rounds
-- behind it, from the offset behind the option.
unfoldable pub option_step :
    List ℕ → (len opt kind : ℕ) → Config → (next : ℕ → Config → Outcome Config) → Outcome Config
option_step buffer len opt kind cfg next =
    if ltb len (opt + 2)
    then value cfg
    else byte buffer (opt + 1) >>= λ length.
        if ltb len (opt + 2 + length)
        then value cfg
        else process buffer kind length (opt + 2) cfg >>= next (opt + 2 + length)

-- The loop of `dhcp_parse_options`, on fuel; `reject` means that the fuel ran out.
unfoldable pub options_loop : ℕ → List ℕ → (len opt : ℕ) → Config → Outcome Config
options_loop zero buffer len opt cfg = reject
options_loop (suc fuel) buffer len opt cfg =
    let padding = options_loop fuel buffer len (opt + 1) cfg in
    if ltb opt len
    then (byte buffer opt >>= λ kind.
        if kind == 255
        then value cfg
        else if kind == 0
        then padding
        else option_step buffer len opt kind cfg (options_loop fuel buffer len))
    else value cfg

-- `dhcp_parse_options`; each round advances by a byte at least, so `len` rounds and one suffice.
unfoldable pub parse_options : List ℕ → (len : ℕ) → Config → Outcome Config
unfolding options_loop
parse_options packet len cfg =
    if leb len fixed_dhcp_size
    then value cfg
    else options_loop (suc len) packet len fixed_dhcp_size cfg
