-- ===== src/Packets/Motionframe/Decoding.antt =====
-- What the functions of commons/network/udp_motionframe_schema.py make of encoded frames.
use animacharacter_dev_src.Prelude.{
  ℕ, zero, suc, ◌+◌, ◌*◌, ◌/◌, ◌≡◌, refl, sym, ap, ◌∙◌, inl, inr, Bool-cases, List, [], ◌∷◌, ◌++◌,
  length, length-append, drop-append, take_exact, arith, ok, bind-ok, ok-inj, ltb,
}
use mathlib.Core.List.{append_assoc}
use animacharacter_dev_src.Prelude.Bytes.{Bytes}
use animacharacter_dev_src.Packets.Motionframe.{
  FloatBytes, unit_size, pack_record, encode_motionframe_packet, unpack_from, decode_records,
  decode_motionframe_packet, decode_columns, decode_motionframe_packet_into_arrays,
}

abbrev pub ids_of : {F : Type 0} → List (ℕ × F) → List ℕ
ids_of [] = []
ids_of ((id, value) ∷ records) = id ∷ ids_of records

abbrev pub values_of : {F : Type 0} → List (ℕ × F) → List F
values_of [] = []
values_of ((id, value) ∷ records) = value ∷ values_of records

-- the frame with each value as a 32-bit float
abbrev pub rounded : {F : Type 0} → (F → F) → List (ℕ × F) → List (ℕ × F)
rounded single [] = []
rounded single ((id, value) ∷ records) = (id, single value) ∷ rounded single records

module _ {F : Type 0} (f : FloatBytes F) where
  columns_lem :
      (n offset : ℕ) (packet : Bytes)
      → decode_columns f n offset packet
        ≡ (ids_of (decode_records f n offset packet), values_of (decode_records f n offset packet))
  unfolding decode_columns decode_records
  columns_lem zero offset packet = refl
  columns_lem (suc n) offset packet =
      ap (λ c. ((unpack_from f packet offset).0 ∷ c.0, (unpack_from f packet offset).1 ∷ c.1))
        (columns_lem n (offset + unit_size) packet)

  pack_record_size :
      (id : ℕ) (value : F) (bytes : Bytes)
      → ((v : F) (bs : Bytes) → f.pack_f v ≡ ok bs → length bs ≡ 4)
      → pack_record f id value ≡ ok bytes
      → length bytes ≡ 8
  unfolding pack_record
  pack_record_size id value bytes size h = elim (Bool-cases (ltb id 65536)) [
    | inl fits ↦
        let (float, packed, q) = bind-ok (f.pack_f value) _ bytes (rw fits at h) in
        rw (sym (ok-inj q)) (omega (arith, size value float packed))
    | inr large ↦ absurd (ground (arith, rw large at h))
  ]

  frame_size :
      (motionframe : List (ℕ × F)) (bytes : Bytes)
      → ((v : F) (bs : Bytes) → f.pack_f v ≡ ok bs → length bs ≡ 4)
      → encode_motionframe_packet f motionframe ≡ ok bytes
      → length bytes ≡ 8 * length motionframe
  unfolding encode_motionframe_packet
  frame_size [] bytes size h = rw (sym (ok-inj h)) refl
  frame_size ((id, value) ∷ records) bytes size h =
      let (unit, packed, h1) = bind-ok (pack_record f id value) _ bytes h in
      let (rest, encoded, h2) = bind-ok (encode_motionframe_packet f records) _ bytes h1 in
      rw (sym (ok-inj h2)) (
        omega (
          arith,
          length-append unit rest,
          pack_record_size id value unit size packed,
          frame_size records rest size encoded,
        ))

  unpack_record :
      (single : F → F) (id : ℕ) (value : F) (unit pre rest : Bytes)
      → ((v : F) (bs : Bytes) → f.pack_f v ≡ ok bs → length bs ≡ 4)
      → ((v : F) (bs : Bytes) → f.pack_f v ≡ ok bs → f.unpack_f bs ≡ single v)
      → pack_record f id value ≡ ok unit
      → unpack_from f (pre ++ (unit ++ rest)) (length pre) ≡ (id, single value)
  unfolding unpack_from pack_record
  unpack_record single id value unit pre rest size reads h = elim (Bool-cases (ltb id 65536)) [
    | inl fits ↦
        let (float, packed, q) = bind-ok (f.pack_f value) _ unit (rw fits at h) in
        rw
          (
            drop-append pre (unit ++ rest),
            take_exact 8 unit rest (sym (pack_record_size id value unit size h)),
            sym (ok-inj q),
            reads value float packed,
          )
          (ap (λ n. (n, single value)) (omega arith))
    | inr large ↦ absurd (ground (arith, rw large at h))
  ]

  decode_lem :
      (single : F → F) (motionframe : List (ℕ × F)) (pre bytes : Bytes)
      → ((v : F) (bs : Bytes) → f.pack_f v ≡ ok bs → length bs ≡ 4)
      → ((v : F) (bs : Bytes) → f.pack_f v ≡ ok bs → f.unpack_f bs ≡ single v)
      → encode_motionframe_packet f motionframe ≡ ok bytes
      → decode_records f (length motionframe) (length pre) (pre ++ bytes)
        ≡ rounded single motionframe
  unfolding decode_records encode_motionframe_packet
  decode_lem single [] pre bytes size reads h = refl
  decode_lem single ((id, value) ∷ records) pre bytes size reads h =
      let (unit, packed, h1) = bind-ok (pack_record f id value) _ bytes h in
      let (rest, encoded, h2) = bind-ok (encode_motionframe_packet f records) _ bytes h1 in
      let next : length (pre ++ unit) ≡ length pre + unit_size =
        omega (arith, length-append pre unit, pack_record_size id value unit size packed) in
      let later = decode_lem single records (pre ++ unit) rest size reads encoded in
      rw (sym (ok-inj h2)) (λ i.
        unpack_record single id value unit pre rest size reads packed i
        ∷ moved unit rest next later i)
    where
      moved :
          (unit rest : Bytes)
          → length (pre ++ unit) ≡ length pre + unit_size
          → decode_records f (length records) (length (pre ++ unit)) (pre ++ unit ++ rest)
            ≡ rounded single records
          → decode_records f (length records) (length pre + unit_size) (pre ++ (unit ++ rest))
            ≡ rounded single records
      moved unit rest next later =
          ap (λ o. decode_records f (length records) o (pre ++ (unit ++ rest))) (sym next)
          ∙ ap (decode_records f (length records) (length (pre ++ unit)))
              (sym (append_assoc pre unit rest))
          ∙ later

  -- A frame that could be encoded is decoded to the same records, with each value as the 32-bit
  -- float it was packed to, and the decoding into arrays gives the columns of these records. The
  -- bytes of a packed float are assumed to be four, and to be unpacked to its 32-bit float.
  pub decode-encode_motionframe_packet :
      (single : F → F) (motionframe : List (ℕ × F)) (bytes : Bytes)
      → ((v : F) (bs : Bytes) → f.pack_f v ≡ ok bs → length bs ≡ 4)
      → ((v : F) (bs : Bytes) → f.pack_f v ≡ ok bs → f.unpack_f bs ≡ single v)
      → encode_motionframe_packet f motionframe ≡ ok bytes
      → (decode_motionframe_packet f bytes ≡ rounded single motionframe)
        × (decode_motionframe_packet_into_arrays f bytes ≡ (
          ids_of (decode_motionframe_packet f bytes),
          values_of (decode_motionframe_packet f bytes),
        ))
  unfolding decode_motionframe_packet decode_motionframe_packet_into_arrays
  decode-encode_motionframe_packet single motionframe bytes size reads h = (
    ap (λ n. decode_records f n 0 bytes) (omega (arith, frame_size motionframe bytes size h))
        ∙ decode_lem single motionframe [] bytes size reads h,
    columns_lem (length bytes / unit_size) 0 bytes,
  )
