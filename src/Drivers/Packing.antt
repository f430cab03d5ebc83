-- ===== src/Drivers/Packing.antt =====
-- The struct formats that mcudrivers/head_driver.py packs by: unsigned bytes and signed 16-bit
-- numbers, little-endian; a value out of its field's range raises struct.error.
use animacharacter_dev_src.Prelude.{
  ◌-◌, ◌/◌, ◌%◌, ℤ, pos, negsuc, List, [], ◌∷◌, ◌++◌, Result, ok, raised, ◌>>=◌, Exc, struct_error,
  ltb, if◌then◌else◌,
}
use animacharacter_dev_src.Prelude.Bytes.{Bytes}

-- format B
unfoldable pub pack_uint8 : ℤ → Result Exc Bytes
pack_uint8 (pos n) = if ltb n 256 then ok (n ∷ []) else raised struct_error
pack_uint8 (negsuc n) = raised struct_error

-- format h, in two's complement
unfoldable pub pack_int16 : ℤ → Result Exc Bytes
pack_int16 (pos n) = if ltb n 32768 then ok (n % 256 ∷ n / 256 ∷ []) else raised struct_error
pack_int16 (negsuc n) =
    if ltb n 32768 then ok ((65535 - n) % 256 ∷ (65535 - n) / 256 ∷ []) else raised struct_error

unfoldable pub pack_all : (ℤ → Result Exc Bytes) → List ℤ → Result Exc Bytes
pack_all pack [] = ok []
pack_all pack (v ∷ vs) = do bytes ← pack v; rest ← pack_all pack vs; ok (bytes ++ rest)
