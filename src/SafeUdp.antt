-- ===== src/SafeUdp.antt =====
-- pysafeudp/safeudpsock.py: SafeUdpSock, signed and numbered datagrams. HMAC-blake2s, msgpack and
-- the resolution of host names are the parameters of the functions; the socket's answers are
-- arguments.
pub mod Receive
mod Inbound
mod Replays
mod Examples
use animacharacter_dev_src.Prelude.{
  ℕ, ◌+◌, ℤ, pos, negsuc, String, String-discrete, ℕ_discrete, Key, equal, string_key, Bool, not,
  true, false, Option, none, some, List, [], ◌∷◌, ◌++◌, take, Result, ok, raised, ◌>>=◌, Exc,
  runtime_error, leb, if◌then◌else◌,
}
use animacharacter_dev_src.Prelude.Dict.{Dict, get, put, has}
use animacharacter_dev_src.Prelude.Bytes.{Bytes, to_bytes, same_bytes}

abbrev pub SocketAddress : Type 0
SocketAddress = String × ℕ

unfoldable pub SocketAddress-discrete : Discrete SocketAddress
unfolding String-discrete ℕ_discrete
SocketAddress-discrete = hlevel (String-discrete, ℕ_discrete)

instance abbrev pub address_key : Key SocketAddress
unfolding SocketAddress-discrete
address_key = record { same = SocketAddress-discrete }

abbrev pub invalid_address : SocketAddress
invalid_address = ("__invalid__", 0)

-- What msgpack finds in a frame of three: an integer, bytes, or anything else.
pub data Field : Type 0 where
  int_field : ℤ → Field
  bytes_field : Bytes → Field
  other_field : Field

-- the code that SafeUdpSock calls: hmac.new(key, data, blake2s).digest(), packb of a frame,
-- unpackb (nothing where it raises, or where the result has not three parts), and gethostbyname
pub record Libraries : Type 0 where
  pub digest : Bytes → Bytes → Bytes
  pub packb : ℕ → Bytes → Bytes → Bytes
  pub unpackb : Bytes → Option (Field × Field × Field)
  pub gethostbyname : String → Result Exc String

pub record SeqNumTracker : Type 0 where
  pub outbound : ℕ
  pub inbound : ℕ

abbrev pub new_tracker : SeqNumTracker
new_tracker = record { outbound = 0; inbound = 0 }

pub record SafeUdpSock : Type 0 where
  pub secret : Bytes
  pub seq_num_map : Dict SocketAddress SeqNumTracker
  pub latest_sender : SocketAddress
  pub peer : SocketAddress

-- SafeUdpSock(secret_key)
abbrev pub new_sock : Bytes → SafeUdpSock
new_sock secret_key = record {
  secret = secret_key;
  seq_num_map = [];
  latest_sender = invalid_address;
  peer = invalid_address;
}

-- _populate_seqnum_entry, on the resolved address
unfoldable pub populate : SocketAddress → SafeUdpSock → SafeUdpSock
populate address s =
    if has s.seq_num_map address
    then s
    else record s { seq_num_map = put s.seq_num_map address new_tracker }

-- the tracker of an address; a new one where it has none
unfoldable pub tracker_of : SocketAddress → SafeUdpSock → SeqNumTracker
tracker_of address s = elim (get s.seq_num_map address) [
  | none ↦ new_tracker
  | some tracker ↦ tracker
]

abbrev pub set_tracker : SocketAddress → SeqNumTracker → SafeUdpSock → SafeUdpSock
set_tracker address tracker s = record s { seq_num_map = put s.seq_num_map address tracker }

-- `self.peer if self.peer[0] != INVALID_ADDRESS[0] else to`
abbrev pub send_target : Option SocketAddress → SafeUdpSock → Option SocketAddress
send_target to s = if not (equal s.peer.0 invalid_address.0) then some s.peer else to

module _ (lib : Libraries) where
  unfoldable pub resolve_peer : SocketAddress → Result Exc SocketAddress
  resolve_peer (host, port) = do ip ← lib.gethostbyname host; ok (ip, port)

  unfoldable pub gen_hmac : Bytes → SafeUdpSock → Bytes
  gen_hmac signed s = take 8 (lib.digest s.secret signed)

  unfoldable pub encode_frame : Bytes → ℕ → SafeUdpSock → Result Exc Bytes
  encode_frame payload sqnum s = do
    number ← to_bytes 8 sqnum
    ok (lib.packb sqnum (gen_hmac (payload ++ number) s) payload)

  -- send to a resolved address: the new outbound number is stored, and the frame is made
  unfoldable pub send_resolved :
      Bytes → SocketAddress → SafeUdpSock → SafeUdpSock × Result Exc Bytes
  send_resolved payload address s =
      let tracker = tracker_of address s in
      let sqnum = tracker.outbound + 1 in
      let t = set_tracker address (record tracker { outbound = sqnum }) s in
      (t, encode_frame payload sqnum t)

  unfoldable pub send_to :
      Bytes → Result Exc SocketAddress → SafeUdpSock → SafeUdpSock × Result Exc Bytes
  send_to payload (raised e) s = (s, raised e)
  send_to payload (ok address) s = send_resolved payload address s

  unfoldable pub send_at :
      Bytes → Option SocketAddress → SafeUdpSock → SafeUdpSock × Result Exc Bytes
  send_at payload none s = (s, raised runtime_error)
  send_at payload (some target) s = send_to payload (resolve_peer target) s

  -- `send` up to the socket's sendto, which gets the frame returned; SafeudpNullPeer is raised as
  -- a runtime error
  unfoldable pub send : Bytes → Option SocketAddress → SafeUdpSock → SafeUdpSock × Result Exc Bytes
  send payload to s = send_at payload (send_target to s) s

  unfoldable pub get_outbound_seqnum : SocketAddress → SafeUdpSock → Result Exc (SafeUdpSock × ℕ)
  get_outbound_seqnum peer s = do
    address ← resolve_peer peer
    ok (populate address s, (tracker_of address s).outbound)

  unfoldable pub get_inbound_seqnum : SocketAddress → SafeUdpSock → Result Exc (SafeUdpSock × ℕ)
  get_inbound_seqnum peer s = do
    address ← resolve_peer peer
    ok (populate address s, (tracker_of address s).inbound)

  unfoldable pub override_outbound_seqnum : SocketAddress → ℕ → SafeUdpSock → Result Exc SafeUdpSock
  override_outbound_seqnum peer val s = do
    address ← resolve_peer peer
    ok (set_tracker address (record (tracker_of address s) { outbound = val }) s)

  -- _decode_frame from the computed signature on
  unfoldable pub accept_signed :
      SocketAddress
      → ℕ
      → Bytes
      → Bytes
      → SafeUdpSock
      → Result Exc Bytes
      → SafeUdpSock × Result Exc (Option Bytes)
  accept_signed address seq sig payload s (raised e) = (s, raised e)
  accept_signed address seq sig payload s (ok number) =
      if same_bytes (gen_hmac (payload ++ number) s) sig
      then (
        set_tracker address (record (tracker_of address s) { inbound = seq }) s,
        ok (some payload),
      )
      else (s, ok none)

  -- _decode_frame from the check of the sequence number on
  unfoldable pub accept_numbered :
      SocketAddress → ℤ → Bytes → Bytes → SafeUdpSock → SafeUdpSock × Result Exc (Option Bytes)
  accept_numbered address (negsuc seq) sig payload s = (s, ok none)
  accept_numbered address (pos seq) sig payload s =
      if leb seq (tracker_of address s).inbound
      then (s, ok none)
      else accept_signed address seq sig payload s (to_bytes 8 seq)

  unfoldable pub accept_from :
      Result Exc SocketAddress
      → ℤ
      → Bytes
      → Bytes
      → SafeUdpSock
      → SafeUdpSock × Result Exc (Option Bytes)
  accept_from (raised e) seq sig payload s = (s, raised e)
  accept_from (ok address) seq sig payload s =
      accept_numbered address seq sig payload (populate address s)

  -- _decode_frame from the checks of the types on
  unfoldable pub accept_fields :
      Option (Field × Field × Field)
      → SocketAddress
      → SafeUdpSock
      → SafeUdpSock × Result Exc (Option Bytes)
  accept_fields (some (int_field seq, bytes_field sig, bytes_field payload)) peer s =
      accept_from (resolve_peer peer) seq sig payload s
  accept_fields _ peer s = (s, ok none)

  unfoldable pub decode_frame :
      Bytes → SocketAddress → SafeUdpSock → SafeUdpSock × Result Exc (Option Bytes)
  decode_frame frame peer s = accept_fields (lib.unpackb frame) peer s
