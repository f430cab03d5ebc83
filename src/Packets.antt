-- ===== src/Packets.antt =====
-- packetcodec/packet_decoder.py, packetcodec/builtin_packets.py and packetcodec/utils.py: packets of
-- registered classes. md5, which gives the 32-bit identifier of a class's name, is the parameter
-- `hash`. A class is given by its name and its decode and encode, which may raise.
pub mod Motionframe
pub mod RoundTrip
mod Examples
use animacharacter_dev_src.Prelude.{
  ℕ, ◌%◌, ◌^◌, nat_key, String, Option, none, some, List, [], ◌∷◌, ◌++◌, take, drop, Result, ok,
  raised, ◌>>=◌, Exc,
}
use animacharacter_dev_src.Prelude.Dict.{Dict, get, put}
use animacharacter_dev_src.Prelude.Bytes.{Bytes, big_endian, from_bytes}

abbrev pub packtypeid_size_bytes : ℕ
packtypeid_size_bytes = 4

-- a subclass of BasePacket, with objects of type P and what encode takes of type A
pub record PacketClass (P A : Type 0) : Type 0 where
  pub name : String
  pub decode : Bytes → Result Exc P
  pub encode : A → Result Exc Bytes

-- UnknownPacket, or an object of a registered class
pub data Decoded (P : Type 0) : Type 0 where
  unknown_packet : ℕ → Decoded P
  packet : P → Decoded P

-- a packet with its _raw_bytes
abbrev pub Received : Type 0 → Type 0
Received P = Decoded P × Bytes

module _ (hash : String → ℕ) where
  -- gen32bithash, get_packtype_id
  unfoldable pub packtype_id : String → ℕ
  packtype_id name = hash name % 2 ^ 32

  -- the wrapper of encode that __init_subclass__ makes
  unfoldable pub encoder_wrapper : {P A : Type 0} → PacketClass P A → A → Result Exc Bytes
  encoder_wrapper cls args = do
    payload ← cls.encode args
    ok (big_endian packtypeid_size_bytes (packtype_id cls.name) ++ payload)

  unfoldable pub register_packet :
      {P A : Type 0} → PacketClass P A → Dict ℕ (PacketClass P A) → Dict ℕ (PacketClass P A)
  register_packet cls table = put table (packtype_id cls.name) cls

  unfoldable pub register_packets :
      {P A : Type 0} → List (PacketClass P A) → Dict ℕ (PacketClass P A) → Dict ℕ (PacketClass P A)
  register_packets [] table = table
  register_packets (cls ∷ classes) table = register_packets classes (register_packet cls table)

-- UnknownPacket.decode
unfoldable pub decode_unknown : Bytes → ℕ
decode_unknown payload = from_bytes (take packtypeid_size_bytes payload)

-- the decode of the class found, or of UnknownPacket
unfoldable pub decode_by :
    {P A : Type 0} → Option (PacketClass P A) → Bytes → Result Exc (Decoded P)
decode_by none payload = ok (unknown_packet (decode_unknown payload))
decode_by (some cls) payload = do decoded ← cls.decode payload; ok (packet decoded)

unfoldable pub parse_bytes :
    {P A : Type 0} → Dict ℕ (PacketClass P A) → Bytes → Result Exc (Received P)
parse_bytes table frame = do
  decoded ←
      decode_by (get table (from_bytes (take packtypeid_size_bytes frame)))
        (drop packtypeid_size_bytes frame)
  ok (decoded, frame)
