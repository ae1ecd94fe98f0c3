-- ===== src/Tunnel/Reliable/Slots/Throwing.antt =====
-- Slots of `receive` of net/Tunnel.ReliableChannel.cpp that throw.
use wetnork.Base.{
  ℕ, ◌<◌, ◌^◌, ◌≡◌, refl, ap, ◌∙◌, List, [], ◌∷◌, some, true, false, ltb, arith, Option-cases, inl,
  inr,
}
use wetnork.Exceptions.{Exception, ok, throw}
use wetnork.Packet.{Packet, packet, get_data, bytes, skip}
use wetnork.Tunnel.Header.{reliable_header, reliable_size, read_reliable, get_seq, ack, ntohl-htonl}
use wetnork.Tunnel.Reliable.{ReliableChannel, write, receive, write_packet}
use wetnork.Tunnel.Reliable.Replies.{
  ack_frame, data_frame, gather_ack, write_packet_lem, read_reliable-bytes,
}
use wetnork.Tunnel.Reliable.Slots.{
  Deed, returns, throws, asks, Slots, perform, read_data_with, read_header_with, read_packet_with,
}

perform_keeps :
    (d : Deed) (c : ReliableChannel)
    → ((perform d c).0.cid ≡ c.cid) × ((perform d c).0.peer_seq ≡ c.peer_seq)
unfolding perform
perform_keeps returns c = (refl, refl)
perform_keeps (throws e) c = (refl, refl)
perform_keeps (asks p k) c =
    let rest = perform_keeps (k (write_packet c p).1) (write_packet c p).0 in
    let kept : ((write_packet c p).0.cid ≡ c.cid) × ((write_packet c p).0.peer_seq ≡ c.peer_seq) =
      elim (Option-cases c.in_flight_packet) [
        | inl e ↦ rw ((write_packet_lem c p).0 e) (refl, refl)
        | inr (q, e) ↦ rw ((write_packet_lem c p).1 q e) (refl, refl)
      ] in
    (rest.0 ∙ kept.0, rest.1 ∙ kept.1)

read_again :
    (t : Slots) (c : ReliableChannel) (f : Packet) (cid seq : ℕ) (payload : List ℕ)
    → bytes f ≡ data_frame cid seq payload
    → seq < 2 ^ 32
    → c.peer_seq ≡ seq
    → read_packet_with t c f
      ≡ ((c, write (packet (ack_frame c.cid seq) 0 reliable_size) ∷ []), ok tt)
unfolding read_packet_with read_header_with read_data_with reliable_header get_seq
read_again t c f cid seq payload e w same =
    let old : ltb c.peer_seq seq ≡ false = ground (arith, same) in
    rw
      (
        read_reliable-bytes f cid 0 seq payload e,
        ntohl-htonl seq w,
        old,
        gather_ack (reliable_header c.cid ack seq),
      )
      refl

-- If the slots throw at the payload of a new packet, the exception leaves the read, and the packet is
-- not acknowledged. But its number is kept: when it comes again, it is acknowledged, and no slot is
-- called. So a packet at which a slot throws is not passed on again, though the peer repeats it.
pub read_packet_with-throw :
    (s t : Slots) (c : ReliableChannel) (f : Packet) (cid seq : ℕ) (payload : List ℕ)
    (x : Exception)
    → bytes f ≡ data_frame cid seq payload
    → seq < 2 ^ 32
    → c.peer_seq < seq
    → (perform (s.on_receive (skip f reliable_size)) (record c { peer_seq = seq })).1 ≡ some x
    → let c' = (read_packet_with s c f).0.0 in
      (read_packet_with s c f ≡ ((c', receive (skip f reliable_size) ∷ []), throw x))
      × (read_packet_with t c' f
          ≡ ((c', write (packet (ack_frame c.cid seq) 0 reliable_size) ∷ []), ok tt))
unfolding read_packet_with read_header_with read_data_with reliable_header get_seq
read_packet_with-throw s t c f cid seq payload x e w above thrown =
    let c' = (perform (s.on_receive (skip f reliable_size)) (record c { peer_seq = seq })).0 in
    let (same_cid, same_seq) =
      perform_keeps (s.on_receive (skip f reliable_size)) (record c { peer_seq = seq }) in
    let header : read_reliable (get_data f) ≡ some (reliable_header cid 0 seq) =
      read_reliable-bytes f cid 0 seq payload e in
    let number = ntohl-htonl seq w in
    let new : ltb c.peer_seq seq ≡ true = ground arith in
    let first : read_packet_with s c f ≡ ((c', receive (skip f reliable_size) ∷ []), throw x) =
      rw (header, number, new, thrown) refl in
    rw first (
      refl,
      read_again t c' f cid seq payload e w same_seq
          ∙ ap (λ n. ((c', write (packet (ack_frame n seq) 0 reliable_size) ∷ []), ok tt)) same_cid,
    )
