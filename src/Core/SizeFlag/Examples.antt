-- ===== src/Core/SizeFlag/Examples.antt =====
-- Concrete size flag bytes.
use casfa.Base.{◌≡◌, refl}
use casfa.Core.SizeFlag.{compute_size_flag_byte, decode_size_flag_byte}

flag_of_1000 : compute_size_flag_byte 1000 ≡ 0x24
unfolding compute_size_flag_byte
flag_of_1000 = refl

bound_of_flag : decode_size_flag_byte 0x24 ≡ 1024
unfolding decode_size_flag_byte
bound_of_flag = refl
