-- ===== src/Packets/Motionframe.antt =====
-- commons/network/udp_motionframe_schema.py: frames of actuator values. The format "Hf" is that of
-- struct with the machine's alignment: a 16-bit number, two bytes of padding and a 32-bit float,
-- here little-endian. The conversion of a float to its four bytes and back is a parameter.
pub mod Decoding
use animacharacter_dev_src.Prelude.{
  ℕ, zero, suc, ◌+◌, ◌*◌, ◌/◌, ◌%◌, Bool, List, [], ◌∷◌, ◌++◌, length, take, drop, Result, ok,
  raised, ◌>>=◌, Exc, struct_error, ltb, if◌then◌else◌,
}
use animacharacter_dev_src.Prelude.Bytes.{Bytes}

-- packing a float raises where it is too large
pub record FloatBytes (F : Type 0) : Type 0 where
  pub pack_f : F → Result Exc Bytes
  pub unpack_f : Bytes → F

-- packer.size
abbrev pub unit_size : ℕ
unit_size = 8

-- the 16-bit number that two bytes are
abbrev pub uint16_of : Bytes → ℕ
uint16_of [] = 0
uint16_of (low ∷ []) = low
uint16_of (low ∷ high ∷ bytes) = low + 256 * high

module _ {F : Type 0} (f : FloatBytes F) where
  -- packer.pack
  unfoldable pub pack_record : ℕ → F → Result Exc Bytes
  pack_record id value =
      if ltb id 65536
      then (do float ← f.pack_f value; ok (id % 256 ∷ id / 256 ∷ 0 ∷ 0 ∷ float))
      else raised struct_error

  unfoldable pub encode_motionframe_packet : List (ℕ × F) → Result Exc Bytes
  encode_motionframe_packet [] = ok []
  encode_motionframe_packet ((id, value) ∷ motionframe) = do
    record_bytes ← pack_record id value
    rest ← encode_motionframe_packet motionframe
    ok (record_bytes ++ rest)

  -- packer.unpack_from
  unfoldable pub unpack_from : Bytes → ℕ → ℕ × F
  unpack_from packet offset =
      let unit = take unit_size (drop offset packet) in (uint16_of unit, f.unpack_f (drop 4 unit))

  -- the loop of decode_motionframe_packet
  unfoldable pub decode_records : ℕ → ℕ → Bytes → List (ℕ × F)
  decode_records zero offset packet = []
  decode_records (suc n) offset packet =
      unpack_from packet offset ∷ decode_records n (offset + unit_size) packet

  unfoldable pub decode_motionframe_packet : Bytes → List (ℕ × F)
  decode_motionframe_packet packet = decode_records (length packet / unit_size) 0 packet

  -- the loop of decode_motionframe_packet_into_arrays
  unfoldable pub decode_columns : ℕ → ℕ → Bytes → List ℕ × List F
  decode_columns zero offset packet = ([], [])
  decode_columns (suc n) offset packet =
      let (id_val, float_val) = unpack_from packet offset in
      let (ids, vals) = decode_columns n (offset + unit_size) packet in
      (id_val ∷ ids, float_val ∷ vals)

  unfoldable pub decode_motionframe_packet_into_arrays : Bytes → List ℕ × List F
  decode_motionframe_packet_into_arrays packet = decode_columns (length packet / unit_size) 0 packet
