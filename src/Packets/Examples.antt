-- ===== src/Packets/Examples.antt =====
-- A codec of two classes and a frame of two records, and the theorems about them there.
use animacharacter_dev_src.Prelude.{
  ℕ, ◌%◌, ◌^◌, nat_key, String, ◌≡◌, refl, none, List, [], ◌∷◌, length, Result, ok, raised, ◌>>=◌,
  Exc, value_error, sym, ok-inj, arith,
}
use animacharacter_dev_src.Prelude.Bytes.{
  Bytes, big_endian, length-big_endian, from_bytes, from_bytes-big_endian,
}
use animacharacter_dev_src.Packets.{
  PacketClass, packtype_id, encoder_wrapper, register_packets, decode_by, parse_bytes,
}
use animacharacter_dev_src.Packets.RoundTrip.{last_with, parse_bytes-encoder_wrapper}
use animacharacter_dev_src.Packets.Motionframe.{
  FloatBytes, pack_record, encode_motionframe_packet, decode_motionframe_packet,
  decode_motionframe_packet_into_arrays,
}
use animacharacter_dev_src.Packets.Motionframe.Decoding.{
  ids_of, values_of, rounded, decode-encode_motionframe_packet,
}

-- Every name has the same identifier, so that the class registered last takes all packets.
abbrev same_hash : String → ℕ
same_hash name = 77

-- a nonce, which is its own payload
abbrev heartbeat_class : PacketClass Bytes Bytes
heartbeat_class = record { name = "HeartBeatPacket"; decode = ok; encode = ok }

abbrev first_byte : Bytes → Result Exc Bytes
first_byte [] = raised value_error
first_byte (b ∷ bytes) = ok (b ∷ [])

abbrev byte_class : PacketClass Bytes Bytes
byte_class = record { name = "BytePacket"; decode = first_byte; encode = ok }

parse_bytes-encoder_wrapper_example :
    (frame : Bytes) × (encoder_wrapper same_hash heartbeat_class (1 ∷ 2 ∷ []) ≡ ok frame)
    × (parse_bytes (register_packets same_hash (heartbeat_class ∷ byte_class ∷ []) []) frame ≡ (
        decode_by
          (last_with same_hash
            (packtype_id same_hash heartbeat_class.name)
            (heartbeat_class ∷ byte_class ∷ [])
            none)
          (1 ∷ 2 ∷ [])
        >>= λ decoded. ok (decoded, frame)))
parse_bytes-encoder_wrapper_example =
    parse_bytes-encoder_wrapper same_hash (heartbeat_class ∷ byte_class ∷ []) heartbeat_class
      (1 ∷ 2 ∷ []) (1 ∷ 2 ∷ []) refl

-- whole numbers in place of floats, of which the four low bytes are kept
abbrev whole_bytes : FloatBytes ℕ
whole_bytes = record { pack_f = λ v. ok (big_endian 4 (v % 256 ^ 4)); unpack_f = from_bytes }

abbrev low_bytes : ℕ → ℕ
low_bytes v = v % 256 ^ 4

whole_size : (v : ℕ) (bs : Bytes) → whole_bytes.pack_f v ≡ ok bs → length bs ≡ 4
whole_size v bs h = rw (sym (ok-inj h)) (length-big_endian 4 (low_bytes v))

whole_reads :
    (v : ℕ) (bs : Bytes) → whole_bytes.pack_f v ≡ ok bs → whole_bytes.unpack_f bs ≡ low_bytes v
whole_reads v bs h = rw (sym (ok-inj h)) (from_bytes-big_endian 4 (low_bytes v) (omega arith))

abbrev two_records : List (ℕ × ℕ)
two_records = (300, 5) ∷ (2, 70000) ∷ []

abbrev two_records_packed : Bytes
two_records_packed = 44 ∷ 1 ∷ 0 ∷ 0 ∷ 0 ∷ 0 ∷ 0 ∷ 5 ∷ 2 ∷ 0 ∷ 0 ∷ 0 ∷ 0 ∷ 1 ∷ 17 ∷ 112 ∷ []

decode-encode_motionframe_packet_example :
    (decode_motionframe_packet whole_bytes two_records_packed ≡ rounded low_bytes two_records)
    × (decode_motionframe_packet_into_arrays whole_bytes two_records_packed ≡ (
      ids_of (decode_motionframe_packet whole_bytes two_records_packed),
      values_of (decode_motionframe_packet whole_bytes two_records_packed),
    ))
unfolding encode_motionframe_packet pack_record big_endian
decode-encode_motionframe_packet_example =
    decode-encode_motionframe_packet whole_bytes low_bytes two_records two_records_packed whole_size
      whole_reads refl
