-- ===== src/IpUtils/Tests.antt =====
-- Some addresses.
use eter_os.Base.{◌≡◌, refl, [], ◌∷◌, arith}
use eter_os.IpUtils.{is_digit, read_number, add_part, read_parts, ip_aton}
use eter_os.IpUtils.Dotted.{decimal, dotted, ip_aton-dotted}

localhost : ip_aton (dotted 127 0 0 1) ≡ 0x0100007F
unfolding ip_aton read_parts read_number is_digit add_part dotted decimal
localhost = refl

-- "1.2.3.256".
too_large : ip_aton (49 ∷ 46 ∷ 50 ∷ 46 ∷ 51 ∷ 46 ∷ 50 ∷ 53 ∷ 54 ∷ []) ≡ 0
unfolding ip_aton read_parts read_number is_digit add_part
too_large = refl

-- "1.2.3".
too_short : ip_aton (49 ∷ 46 ∷ 50 ∷ 46 ∷ 51 ∷ []) ≡ 0
unfolding ip_aton read_parts read_number is_digit add_part
too_short = refl

ip_aton-dotted_example : ip_aton (dotted 10 0 2 15) ≡ 0x0F02000A
unfolding add_part
ip_aton-dotted_example =
    ip_aton-dotted 10 0 2 15 (omega arith) (omega arith) (omega arith) (omega arith)
