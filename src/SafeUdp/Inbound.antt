-- ===== src/SafeUdp/Inbound.antt =====
-- The inbound numbers of SafeUdpSock of pysafeudp/safeudpsock.py.
use animacharacter_dev_src.Prelude.{
  ℕ, ◌+◌, ◌≤◌, ℤ, pos, negsuc, ◌≡◌, sym, ap, inl, inr, Option, none, some, List, [], ◌∷◌, ◌++◌,
  arith, Result, ok, raised, Exc, Bool-cases, leb,
}
use animacharacter_dev_src.Prelude.Dict.Laws.{get-put}
use animacharacter_dev_src.Prelude.Bytes.{Bytes, to_bytes, same_bytes}
use animacharacter_dev_src.SafeUdp.{
  SocketAddress, address_key, Field, int_field, bytes_field, other_field, Libraries, SeqNumTracker,
  new_tracker, SafeUdpSock, resolve_peer, populate, tracker_of, set_tracker, gen_hmac,
  send_resolved, send_to, send_at, accept_signed, accept_numbered, accept_from, accept_fields,
  decode_frame,
}
use animacharacter_dev_src.SafeUdp.Receive.{
  SocketEvent, datagram_from, connection_reset, socket_timeout, is_wanted, note_sender, returned_or,
  recv_datagram, recv_loop, recv_wanted,
}

abbrev pub inbound_of : SocketAddress → SafeUdpSock → ℕ
inbound_of address s = (tracker_of address s).inbound

-- No address has a smaller inbound number.
abbrev pub IsLaterSock : SafeUdpSock → SafeUdpSock → Type 0
IsLaterSock s u = (address : SocketAddress) → inbound_of address s ≤ inbound_of address u

pub tracker_of-populate :
    (a b : SocketAddress) (s : SafeUdpSock) → tracker_of a (populate b s) ≡ tracker_of a s
unfolding tracker_of populate
tracker_of-populate a b s = ground (arith, get-put s.seq_num_map b a new_tracker)

pub set_tracker-IsLaterSock :
    (b : SocketAddress) (tracker : SeqNumTracker) (s : SafeUdpSock)
    → inbound_of b s ≤ tracker.inbound
    → IsLaterSock s (set_tracker b tracker s)
unfolding tracker_of
set_tracker-IsLaterSock b tracker s h a = ground (arith, h, get-put s.seq_num_map b a tracker)

pub tracker_of-set_tracker :
    (b : SocketAddress) (tracker : SeqNumTracker) (s : SafeUdpSock)
    → tracker_of b (set_tracker b tracker s) ≡ tracker
unfolding tracker_of
tracker_of-set_tracker b tracker s = ground (arith, get-put s.seq_num_map b b tracker)

returned_or-IsLaterSock :
    (s : SafeUdpSock) (rest : SafeUdpSock × Result Exc (Option Bytes)) (t : SafeUdpSock)
    (outcome : Result Exc (Option Bytes))
    → IsLaterSock s t
    → IsLaterSock s rest.0
    → IsLaterSock s (returned_or rest t outcome).0
unfolding returned_or
returned_or-IsLaterSock s rest t (raised e) ht hrest = ht
returned_or-IsLaterSock s rest t (ok (some payload)) ht hrest = ht
returned_or-IsLaterSock s rest t (ok none) ht hrest = hrest

module _ (lib : Libraries) where
  accept_signed-IsLaterSock :
      (a : SocketAddress) (seq : ℕ) (sig payload : Bytes) (s : SafeUdpSock)
      (number : Result Exc Bytes)
      → inbound_of a s ≤ seq
      → IsLaterSock s (accept_signed lib a seq sig payload s number).0
  unfolding accept_signed
  accept_signed-IsLaterSock a seq sig payload s (raised e) h = λ b. omega arith
  accept_signed-IsLaterSock a seq sig payload s (ok number) h =
      elim (Bool-cases (same_bytes (gen_hmac lib (payload ++ number) s) sig)) [
        | inl valid ↦
            rw valid (set_tracker-IsLaterSock a (record (tracker_of a s) { inbound = seq }) s h)
        | inr invalid ↦ rw invalid (λ b. omega arith)
      ]

  accept_numbered-IsLaterSock :
      (a : SocketAddress) (seq : ℤ) (sig payload : Bytes) (s : SafeUdpSock)
      → IsLaterSock s (accept_numbered lib a seq sig payload s).0
  unfolding accept_numbered
  accept_numbered-IsLaterSock a (negsuc seq) sig payload s = λ b. omega arith
  accept_numbered-IsLaterSock a (pos seq) sig payload s =
      elim (Bool-cases (leb seq (inbound_of a s))) [
        | inl old ↦ rw old (λ b. omega arith)
        | inr new ↦
            rw new
              (accept_signed-IsLaterSock a seq sig payload s (to_bytes 8 seq) (ground (arith, new)))
      ]

  accept_from-IsLaterSock :
      (address : Result Exc SocketAddress) (seq : ℤ) (sig payload : Bytes) (s : SafeUdpSock)
      → IsLaterSock s (accept_from lib address seq sig payload s).0
  unfolding accept_from
  accept_from-IsLaterSock (raised e) seq sig payload s b = omega arith
  accept_from-IsLaterSock (ok a) seq sig payload s b =
      rw (ap (λ t. t.inbound) (sym (tracker_of-populate b a s)))
        (accept_numbered-IsLaterSock a seq sig payload (populate a s) b)

  pub accept_fields-IsLaterSock :
      (fields : Option (Field × Field × Field)) (peer : SocketAddress) (s : SafeUdpSock)
      → IsLaterSock s (accept_fields lib fields peer s).0
  unfolding accept_fields
  accept_fields-IsLaterSock (some (int_field seq, bytes_field sig, bytes_field payload)) peer s =
      accept_from-IsLaterSock (resolve_peer lib peer) seq sig payload s
  accept_fields-IsLaterSock (some (int_field seq, bytes_field sig, int_field x)) peer s =
      λ b. omega arith
  accept_fields-IsLaterSock (some (int_field seq, bytes_field sig, other_field)) peer s =
      λ b. omega arith
  accept_fields-IsLaterSock (some (int_field seq, int_field x, payload)) peer s = λ b. omega arith
  accept_fields-IsLaterSock (some (int_field seq, other_field, payload)) peer s = λ b. omega arith
  accept_fields-IsLaterSock (some (bytes_field x, sig, payload)) peer s = λ b. omega arith
  accept_fields-IsLaterSock (some (other_field, sig, payload)) peer s = λ b. omega arith
  accept_fields-IsLaterSock none peer s = λ b. omega arith

  note_sender-IsLaterSock :
      (s : SafeUdpSock) (a : SocketAddress) (x : SafeUdpSock × Result Exc (Option Bytes))
      → IsLaterSock s x.0
      → IsLaterSock s (note_sender a x).0
  unfolding note_sender tracker_of
  note_sender-IsLaterSock s a (t, ok (some payload)) h = h
  note_sender-IsLaterSock s a (t, ok none) h = h
  note_sender-IsLaterSock s a (t, raised e) h = h

  recv_datagram-IsLaterSock :
      (from_addr : Option SocketAddress) (a : SocketAddress) (frame : Bytes) (s : SafeUdpSock)
      → IsLaterSock s (recv_datagram lib from_addr a frame s).0
  unfolding recv_datagram decode_frame
  recv_datagram-IsLaterSock from_addr a frame s = elim (Bool-cases (is_wanted from_addr a)) [
    | inl wanted ↦ rw wanted (
        note_sender-IsLaterSock s a (accept_fields lib (lib.unpackb frame) a s)
          (accept_fields-IsLaterSock (lib.unpackb frame) a s))
    | inr other ↦ rw other (λ b. omega arith)
  ]

  recv_loop-IsLaterSock :
      (from_addr : Option SocketAddress) (events : List SocketEvent) (s : SafeUdpSock)
      → IsLaterSock s (recv_loop lib from_addr events s).0
  unfolding recv_loop
  recv_loop-IsLaterSock from_addr [] s = λ b. omega arith
  recv_loop-IsLaterSock from_addr (socket_timeout ∷ events) s = λ b. omega arith
  recv_loop-IsLaterSock from_addr (connection_reset ∷ events) s =
      recv_loop-IsLaterSock from_addr events s
  recv_loop-IsLaterSock from_addr (datagram_from a frame ∷ events) s =
      returned_or-IsLaterSock s
        (recv_loop lib from_addr events (recv_datagram lib from_addr a frame s).0)
        (recv_datagram lib from_addr a frame s).0 (recv_datagram lib from_addr a frame s).1
        (recv_datagram-IsLaterSock from_addr a frame s)
        (λ b. omega (
          arith,
          recv_datagram-IsLaterSock from_addr a frame s b,
          recv_loop-IsLaterSock from_addr events (recv_datagram lib from_addr a frame s).0 b,
        ))

  pub recv_wanted-IsLaterSock :
      (from_addr : Result Exc (Option SocketAddress)) (events : List SocketEvent) (s : SafeUdpSock)
      → IsLaterSock s (recv_wanted lib from_addr events s).0
  unfolding recv_wanted
  recv_wanted-IsLaterSock (raised e) events s = λ b. omega arith
  recv_wanted-IsLaterSock (ok from_addr) events s = recv_loop-IsLaterSock from_addr events s

  send_to-IsLaterSock :
      (payload : Bytes) (address : Result Exc SocketAddress) (s : SafeUdpSock)
      → IsLaterSock s (send_to lib payload address s).0
  unfolding send_to send_resolved
  send_to-IsLaterSock payload (raised e) s = λ b. omega arith
  send_to-IsLaterSock payload (ok a) s =
      set_tracker-IsLaterSock a
        (record (tracker_of a s) { outbound = (tracker_of a s).outbound + 1 }) s (omega arith)

  pub send_at-IsLaterSock :
      (payload : Bytes) (to : Option SocketAddress) (s : SafeUdpSock)
      → IsLaterSock s (send_at lib payload to s).0
  unfolding send_at
  send_at-IsLaterSock payload none s = λ b. omega arith
  send_at-IsLaterSock payload (some target) s =
      send_to-IsLaterSock payload (resolve_peer lib target) s
