-- ===== src/Tunnel/Data.antt =====
-- net/Tunnel.cpp and net/Tunnel.UnreliableChannel.cpp: the data path between the TUN device and
-- the link, through the one data channel. `link_write` and `tun_write` are the calls of `write` on
-- the two streams; a stream is taken to return from them.
pub mod Routes
use wetnork.Base.{
  ℕ, List, [], ◌∷◌, Option, none, some, Bool, true, false, not, ◌==◌, if◌then◌else◌, bit_and,
}
use wetnork.Exceptions.{Outcome, ok, throw, fault, unfinished, invalid_argument, invalid_operation}
use wetnork.Packet.{Packet, get_data, skip}
use wetnork.Stream.{gather}
use wetnork.Tunnel.Header.{unreliable_size, unreliable_packet}

pub record UnreliableChannel : Type 0 where
  pub cid : ℕ

abbrev pub data_channel_id : ℕ
data_channel_id = 0

-- The part of `Tunnel` that its methods read: the data channel over the link.
pub record Tunnel : Type 0 where
  pub data_channel : UnreliableChannel

abbrev pub tunnel : Tunnel
tunnel = record { data_channel = record { cid = data_channel_id } }

pub data Effect : Type 0 where
  link_write tun_write : Packet → Effect

-- `UnreliableChannel::writePacket`: the header and the packet in one block.
unfoldable pub write_packet : UnreliableChannel → Packet → Option Packet
write_packet c p = gather (unreliable_packet (record { u_cid = c.cid }) ∷ p ∷ [])

-- `UnreliableChannel::readPacket`: what the signal `receive` is called with.
unfoldable pub read_packet : UnreliableChannel → Packet → Packet
read_packet c p = skip p unreliable_size

unfoldable pub get_channel : Tunnel → ℕ → Bool → Outcome UnreliableChannel
get_channel t id true = throw (invalid_argument "id")
get_channel t id false = if id == 0 then ok t.data_channel else throw (invalid_argument "id")

abbrev sent_on_link : Option Packet → Outcome (List Effect)
sent_on_link none = fault
sent_on_link (some frame) = ok (link_write frame ∷ [])

-- The slots that the constructor connects.
unfoldable pub tun_read : Tunnel → Packet → Outcome (List Effect)
tun_read t p = sent_on_link (write_packet t.data_channel p)

unfoldable pub data_read : Tunnel → Packet → List Effect
data_read t p = tun_write p ∷ []

read_on : Tunnel → Packet → Outcome UnreliableChannel → Outcome (List Effect)
unfolding read_packet data_read
read_on t p (ok c) = ok (data_read t (read_packet c p))
read_on t p (throw e) = throw e
read_on t p fault = fault
read_on t p unfinished = unfinished

dispatch : Tunnel → Packet → List ℕ → Outcome (List Effect)
unfolding read_on
dispatch t p [] = fault
dispatch t p (channel ∷ rest) =
    read_on t (skip p 1) (get_channel t (bit_and channel 0x7f) (not (bit_and channel 0x80 == 0)))

unfoldable pub propagate : Tunnel → Packet → Outcome (List Effect)
unfolding dispatch
propagate t p =
    if p.length_ == 0
    then throw (invalid_operation "Packet too short")
    else dispatch t p (get_data p)
