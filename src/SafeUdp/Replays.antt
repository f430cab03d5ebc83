-- ===== src/SafeUdp/Replays.antt =====
-- What SafeUdpSock of pysafeudp/safeudpsock.py refuses.
use animacharacter_dev_src.Prelude.{
  ℕ, ◌≤◌, ℤ, pos, negsuc, ◌≡◌, ◌≢◌, refl, sym, ap, ◌∙◌, inl, inr, false, Option, none, some, List,
  [], ◌∷◌, ◌++◌, All, arith, Result, ok, raised, Exc, Bool-cases, Result-cases, equal, equal_sound,
  leb,
}
use animacharacter_dev_src.Prelude.Bytes.{Bytes, to_bytes, same_bytes}
use animacharacter_dev_src.SafeUdp.{
  SocketAddress, address_key, invalid_address, Field, int_field, bytes_field, other_field,
  Libraries, SafeUdpSock, resolve_peer, populate, tracker_of, gen_hmac, send_target, send,
  override_outbound_seqnum, accept_signed, accept_numbered, accept_from, accept_fields,
  decode_frame,
}
use animacharacter_dev_src.SafeUdp.Receive.{
  SocketEvent, datagram_from, connection_reset, socket_timeout, RecvFrom, own_peer, is_wanted,
  returned_or, recv_datagram, recv_loop, recv_wanted, wanted_address, recv, set_peer,
}
use animacharacter_dev_src.SafeUdp.Inbound.{
  inbound_of, IsLaterSock, tracker_of-populate, tracker_of-set_tracker, set_tracker-IsLaterSock,
  recv_wanted-IsLaterSock, send_at-IsLaterSock,
}

-- The calls that a program makes; an exception leaves the socket's state as it is then.
pub data SockCall : Type 0 where
  sends : Bytes → Option SocketAddress → SockCall
  receives : RecvFrom → List SocketEvent → SockCall
  sets_peer : Option SocketAddress → SockCall
  overrides : SocketAddress → ℕ → SockCall

abbrev pub kept_or : SafeUdpSock → Result Exc SafeUdpSock → SafeUdpSock
kept_or s (raised e) = s
kept_or s (ok t) = t

module _ (lib : Libraries) where
  abbrev pub sock_step : SockCall → SafeUdpSock → SafeUdpSock
  sock_step (sends payload to) s = (send lib payload to s).0
  sock_step (receives recv_from events) s = (recv lib recv_from events s).0
  sock_step (sets_peer peer) s = kept_or s (set_peer lib peer s)
  sock_step (overrides peer val) s = kept_or s (override_outbound_seqnum lib peer val s)

  abbrev pub sock_steps : List SockCall → SafeUdpSock → SafeUdpSock
  sock_steps [] s = s
  sock_steps (call ∷ calls) s = sock_steps calls (sock_step call s)

  kept_or-IsLaterSock :
      (s : SafeUdpSock) (result : Result Exc SafeUdpSock)
      → ((t : SafeUdpSock) → result ≡ ok t → IsLaterSock s t)
      → IsLaterSock s (kept_or s result)
  kept_or-IsLaterSock s (raised e) h = λ b. omega arith
  kept_or-IsLaterSock s (ok t) h = h t refl

  set_peer-IsLaterSock :
      (peer : Option SocketAddress) (s : SafeUdpSock)
      → IsLaterSock s (kept_or s (set_peer lib peer s))
  unfolding set_peer tracker_of
  set_peer-IsLaterSock none s = λ b. omega arith
  set_peer-IsLaterSock (some peer) s = elim (Result-cases (resolve_peer lib peer)) [
    | inl (e, h) ↦ rw h (λ b. omega arith)
    | inr (a, h) ↦ rw h (λ b. omega arith)
  ]

  override-IsLaterSock :
      (peer : SocketAddress) (val : ℕ) (s : SafeUdpSock)
      → IsLaterSock s (kept_or s (override_outbound_seqnum lib peer val s))
  unfolding override_outbound_seqnum
  override-IsLaterSock peer val s = elim (Result-cases (resolve_peer lib peer)) [
    | inl (e, h) ↦ rw h (λ b. omega arith)
    | inr (a, h) ↦
        rw h
          (set_tracker-IsLaterSock a (record (tracker_of a s) { outbound = val }) s (omega arith))
  ]

  step-IsLaterSock : (call : SockCall) (s : SafeUdpSock) → IsLaterSock s (sock_step call s)
  unfolding send recv
  step-IsLaterSock (sends payload to) s = send_at-IsLaterSock lib payload (send_target to s) s
  step-IsLaterSock (receives recv_from events) s =
      recv_wanted-IsLaterSock lib (wanted_address lib recv_from s) events s
  step-IsLaterSock (sets_peer peer) s = set_peer-IsLaterSock peer s
  step-IsLaterSock (overrides peer val) s = override-IsLaterSock peer val s

  steps-IsLaterSock : (calls : List SockCall) (s : SafeUdpSock) → IsLaterSock s (sock_steps calls s)
  steps-IsLaterSock [] s = λ b. omega arith
  steps-IsLaterSock (call ∷ calls) s =
      λ b. omega (arith, step-IsLaterSock call s b, steps-IsLaterSock calls (sock_step call s) b)

  accept_signed_stores :
      (a : SocketAddress) (seq : ℕ) (sig p : Bytes) (s t : SafeUdpSock) (number : Result Exc Bytes)
      (payload : Bytes)
      → accept_signed lib a seq sig p s number ≡ (t, ok (some payload))
      → inbound_of a t ≡ seq
  unfolding accept_signed
  accept_signed_stores a seq sig p s t (raised e) payload h = absurd (ground (arith, h))
  accept_signed_stores a seq sig p s t (ok number) payload h =
      elim (Bool-cases (same_bytes (gen_hmac lib (p ++ number) s) sig)) [
        | inl valid ↦
            ap (λ x. inbound_of a x.0) (sym (rw valid at h))
            ∙ ap (λ x. x.inbound)
                (tracker_of-set_tracker a (record (tracker_of a s) { inbound = seq }) s)
        | inr invalid ↦ absurd (ground (arith, rw invalid at h))
      ]

  accept_numbered_stores :
      (a : SocketAddress) (seq : ℤ) (sig p : Bytes) (s t : SafeUdpSock) (payload : Bytes)
      → accept_numbered lib a seq sig p s ≡ (t, ok (some payload))
      → (n : ℕ) × (seq ≡ pos n) × (inbound_of a t ≡ n)
  unfolding accept_numbered
  accept_numbered_stores a (negsuc n) sig p s t payload h = absurd (ground (arith, h))
  accept_numbered_stores a (pos n) sig p s t payload h =
      elim (Bool-cases (leb n (inbound_of a s))) [
        | inl old ↦ absurd (ground (arith, rw old at h))
        | inr new ↦
            (n, refl, accept_signed_stores a n sig p s t (to_bytes 8 n) payload (rw new at h))
      ]

  accept_numbered-old :
      (a : SocketAddress) (n : ℕ) (sig p : Bytes) (s : SafeUdpSock)
      → n ≤ inbound_of a s
      → accept_numbered lib a (pos n) sig p s ≡ (s, ok none)
  unfolding accept_numbered
  accept_numbered-old a n sig p s h = ground (arith, h)

  accept_from_refuses :
      (address : Result Exc SocketAddress) (seq : ℤ) (sig p : Bytes) (s t u : SafeUdpSock)
      (payload : Bytes)
      → accept_from lib address seq sig p s ≡ (t, ok (some payload))
      → IsLaterSock t u
      → (accept_from lib address seq sig p u).1 ≡ ok none
  unfolding accept_from
  accept_from_refuses (raised e) seq sig p s t u payload h later = absurd (ground (arith, h))
  accept_from_refuses (ok a) seq sig p s t u payload h later =
      let (n, is_n, stored) = accept_numbered_stores a seq sig p (populate a s) t payload h in
      let same = ap (λ x. x.inbound) (tracker_of-populate a a u) in
      rw (is_n, accept_numbered-old a n sig p (populate a u) (omega (arith, stored, later a, same)))
        refl

  accept_fields_refuses :
      (fields : Option (Field × Field × Field)) (peer : SocketAddress) (s t u : SafeUdpSock)
      (payload : Bytes)
      → accept_fields lib fields peer s ≡ (t, ok (some payload))
      → IsLaterSock t u
      → (accept_fields lib fields peer u).1 ≡ ok none
  unfolding accept_fields
  accept_fields_refuses (some (int_field seq, bytes_field sig, bytes_field p)) peer s t u payload h
        later =
      accept_from_refuses (resolve_peer lib peer) seq sig p s t u payload h later
  accept_fields_refuses (some (int_field seq, bytes_field sig, int_field x)) peer s t u payload h
        later =
      refl
  accept_fields_refuses (some (int_field seq, bytes_field sig, other_field)) peer s t u payload h
        later =
      refl
  accept_fields_refuses (some (int_field seq, int_field x, p)) peer s t u payload h later = refl
  accept_fields_refuses (some (int_field seq, other_field, p)) peer s t u payload h later = refl
  accept_fields_refuses (some (bytes_field x, sig, p)) peer s t u payload h later = refl
  accept_fields_refuses (some (other_field, sig, p)) peer s t u payload h later = refl
  accept_fields_refuses none peer s t u payload h later = refl

  -- A frame whose payload was accepted from an address is refused from this address ever after,
  -- whatever the program sends, receives from any addresses, overrides and sets as its peer in
  -- between, exceptions included.
  pub accepted_once :
      (frame payload : Bytes) (sender : SocketAddress) (s t : SafeUdpSock) (calls : List SockCall)
      → decode_frame lib frame sender s ≡ (t, ok (some payload))
      → (decode_frame lib frame sender (sock_steps calls t)).1 ≡ ok none
  unfolding decode_frame
  accepted_once frame payload sender s t calls h =
      accept_fields_refuses (lib.unpackb frame) sender s t (sock_steps calls t) payload h
        (steps-IsLaterSock calls t)

  -- a datagram that comes from an address of a host
  abbrev pub IsReal : SocketEvent → Type 0
  IsReal (datagram_from sender frame) = sender ≢ invalid_address
  IsReal connection_reset = Unit
  IsReal socket_timeout = Unit

  not_wanted :
      (sender : SocketAddress)
      → sender ≢ invalid_address
      → is_wanted (some invalid_address) sender ≡ false
  not_wanted sender h = elim (Bool-cases (equal invalid_address sender)) [
    | inl same ↦ absurd (h (sym (equal_sound invalid_address sender same)))
    | inr other ↦ other
  ]

  recv_loop-invalid :
      (events : List SocketEvent) (s : SafeUdpSock)
      → All IsReal events
      → recv_loop lib (some invalid_address) events s ≡ (s, ok none)
  unfolding recv_loop recv_datagram returned_or
  recv_loop-invalid [] s h = refl
  recv_loop-invalid (socket_timeout ∷ events) s h = refl
  recv_loop-invalid (connection_reset ∷ events) s h = recv_loop-invalid events s h.1
  recv_loop-invalid (datagram_from sender frame ∷ events) s h =
      rw (not_wanted sender h.0) (recv_loop-invalid events s h.1)

  -- recv with its default argument, on a socket that has no peer, returns None and changes
  -- nothing, whatever real addresses send, so that also every valid frame is lost.
  pub no_peer_hears_nothing :
      (events : List SocketEvent) (s : SafeUdpSock)
      → s.peer ≡ invalid_address
      → All IsReal events
      → recv lib own_peer events s ≡ (s, ok none)
  unfolding recv recv_wanted wanted_address
  no_peer_hears_nothing events s h real =
      ap (λ from. recv_loop lib (some from) events s) h ∙ recv_loop-invalid events s real
