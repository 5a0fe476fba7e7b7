-- ===== src/Dhcp/Tests.antt =====
-- A DHCP offer in a frame of 290 bytes.
use eter_os.Base.{ℕ, zero, suc, ◌≤◌, ◌≡◌, refl, List, [], ◌∷◌, ◌++◌, arith, length, replicate}
use eter_os.Dhcp.{
  value, byte, load16, load32, load4, htons, htonl, parse_ip, parse_udp, check_dhcp, parse_offer,
  Config, process, option_step, options_loop, parse_options,
}
use eter_os.Dhcp.Safety.{Ensures, IsOffer, parse_offer_safe}
use eter_os.Dhcp.Options.{Succeeds, parse_options_total}
use eter_os.Dhcp.Roundtrip.{
  DhcpOption, pad, option, encode_all, AllProper, apply_all, Holds, parse_options-encode_all,
}

-- The fixed part of the packet: a reply to request 0x12345678.
unfoldable header : List ℕ
header = 2 ∷ 1 ∷ 6 ∷ 0 ∷ 0x12 ∷ 0x34 ∷ 0x56 ∷ 0x78 ∷ replicate 232 0

abbrev offered : List DhcpOption
offered = pad ∷ option 1 (255 ∷ 255 ∷ 255 ∷ 0 ∷ []) ∷ []

unfoldable packet : List ℕ
packet = header ++ encode_all offered

unfoldable frame : List ℕ
frame =
    replicate 12 0
    ++ (8 ∷ 0 ∷ 0x45 ∷ replicate 8 0
        ++ (17 ∷ replicate 10 0)
        ++ (0 ∷ 67 ∷ 0 ∷ 68 ∷ 1 ∷ 0 ∷ 0 ∷ 0 ∷ [])
        ++ packet)

abbrev cfg : Config
cfg = record { mask = []; gw = []; dns = [] }

accepted : parse_offer frame 290 0x12345678 ≡ value (42, 248)
unfolding parse_offer parse_ip parse_udp check_dhcp byte load16 load32 htons htonl frame packet
    header encode_all
accepted = refl

masked : parse_options packet 248 cfg ≡ value (record cfg { mask = 255 ∷ 255 ∷ 255 ∷ 0 ∷ [] })
unfolding parse_options options_loop option_step process load4 byte packet header encode_all
masked = refl

length-frame : 290 ≤ length frame
unfolding frame packet header encode_all
length-frame = omega arith

length-packet : 248 ≤ length packet
unfolding packet header encode_all
length-packet = omega arith

parse_offer_safe_example : Ensures (IsOffer frame 290 0x12345678) (parse_offer frame 290 0x12345678)
parse_offer_safe_example = parse_offer_safe frame 290 length-frame 0x12345678

parse_options_total_example : Succeeds (parse_options packet 248 cfg)
parse_options_total_example = parse_options_total packet 248 length-packet cfg

offered-AllProper : AllProper offered
offered-AllProper = (tt, ((omega arith, omega arith), tt))

offered-Holds : Holds packet 240 (encode_all offered)
unfolding packet header encode_all
offered-Holds zero l = refl
offered-Holds (suc zero) l = refl
offered-Holds (suc (suc zero)) l = refl
offered-Holds (suc (suc (suc zero))) l = refl
offered-Holds (suc (suc (suc (suc zero)))) l = refl
offered-Holds (suc (suc (suc (suc (suc zero))))) l = refl
offered-Holds (suc (suc (suc (suc (suc (suc zero)))))) l = refl
offered-Holds (suc (suc (suc (suc (suc (suc (suc zero))))))) l = refl
offered-Holds (suc (suc (suc (suc (suc (suc (suc (suc j)))))))) l = absurd (omega arith)

parse_options-encode_all_example : parse_options packet 248 cfg ≡ value (apply_all offered cfg)
unfolding encode_all
parse_options-encode_all_example =
    parse_options-encode_all packet 248 offered cfg offered-AllProper offered-Holds (omega arith)
