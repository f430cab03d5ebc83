-- ===== src/Packets/RoundTrip.antt =====
-- What parse_bytes of packetcodec/packet_decoder.py makes of encoded packets.
use animacharacter_dev_src.Prelude.{
  ℕ, ◌%◌, ◌^◌, nat_key, String, ◌≡◌, refl, sym, ap, ◌∙◌, Option, none, some, List, [], ◌∷◌, ◌++◌,
  arith, ok, ◌>>=◌, take_exact, drop_exact, ite,
}
use animacharacter_dev_src.Prelude.Dict.{Dict, get, put}
use animacharacter_dev_src.Prelude.Dict.Laws.{get-put}
use animacharacter_dev_src.Prelude.Bytes.{
  Bytes, big_endian, length-big_endian, from_bytes-big_endian,
}
use animacharacter_dev_src.Packets.{
  PacketClass, packtype_id, encoder_wrapper, register_packet, register_packets, decode_by,
  parse_bytes,
}

module _ (hash : String → ℕ) {P A : Type 0} where
  -- the class registered last under an identifier, or else what was registered before
  abbrev pub last_with :
      ℕ → List (PacketClass P A) → Option (PacketClass P A) → Option (PacketClass P A)
  last_with id [] before = before
  last_with id (cls ∷ classes) before =
      last_with id classes (ite (nat_key.same (packtype_id hash cls.name) id) (some cls) before)

  get-register_packets :
      (id : ℕ) (classes : List (PacketClass P A)) (table : Dict ℕ (PacketClass P A))
      → get (register_packets hash classes table) id ≡ last_with id classes (get table id)
  unfolding register_packets register_packet
  get-register_packets id [] table = refl
  get-register_packets id (cls ∷ classes) table =
      get-register_packets id classes (put table (packtype_id hash cls.name) cls)
      ∙ ap (last_with id classes) (get-put table (packtype_id hash cls.name) id cls)

  -- The bytes of an encoded packet are read as the identifier of its class and its payload.
  parse_bytes-encoded :
      (table : Dict ℕ (PacketClass P A)) (name : String) (payload : Bytes)
      → parse_bytes table (big_endian 4 (packtype_id hash name) ++ payload) ≡ (
          decode_by (get table (packtype_id hash name)) payload >>= λ decoded.
          ok (decoded, big_endian 4 (packtype_id hash name) ++ payload))
  unfolding parse_bytes packtype_id
  parse_bytes-encoded table name payload =
      rw
        (
          take_exact 4 (big_endian 4 (hash name % 2 ^ 32)) payload
              (sym (length-big_endian 4 (hash name % 2 ^ 32))),
          drop_exact 4 (big_endian 4 (hash name % 2 ^ 32)) payload
              (sym (length-big_endian 4 (hash name % 2 ^ 32))),
          from_bytes-big_endian 4 (hash name % 2 ^ 32) (omega arith),
        )
        refl

  -- A packet that a class could encode is parsed, by a decoder where this class is the last one
  -- registered under its identifier, to what the class decodes from the payload, with the whole
  -- frame as its raw bytes; if its identifier is not registered, to an UnknownPacket, whose
  -- typeid is read from the payload.
  pub parse_bytes-encoder_wrapper :
      (classes : List (PacketClass P A)) (cls : PacketClass P A) (args : A) (payload : Bytes)
      → cls.encode args ≡ ok payload
      → (frame : Bytes) × (encoder_wrapper hash cls args ≡ ok frame)
        × (parse_bytes (register_packets hash classes []) frame ≡ (
            decode_by (last_with (packtype_id hash cls.name) classes none) payload >>= λ decoded.
            ok (decoded, frame)))
  unfolding encoder_wrapper get
  parse_bytes-encoder_wrapper classes cls args payload h = (
    big_endian 4 (packtype_id hash cls.name) ++ payload,
    rw h refl,
    parse_bytes-encoded (register_packets hash classes []) cls.name payload
        ∙ ap
            (λ found. decode_by found payload >>= λ decoded.
              ok (decoded, big_endian 4 (packtype_id hash cls.name) ++ payload))
            (get-register_packets (packtype_id hash cls.name) classes []),
  )
