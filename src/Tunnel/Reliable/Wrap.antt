-- ===== src/Tunnel/Reliable/Wrap.antt =====
-- The channel of net/Tunnel.ReliableChannel.cpp whose `peerSeq` has reached the largest `uint32_t`.
use mathlib.Core.Option.{some-injective}
use wetnork.Base.{
  subst, sym, ap, ℕ, ◌-◌, ◌^◌, ◌<◌, ◌≤◌, ◌≡◌, refl, List, [], ◌∷◌, ◌++◌, Option, some, inl, inr,
  false, not, ◌&&◌, length, All, All-append, arith, Bool-cases, ltb, ◌==◌, bit_and,
}
use wetnork.Packet.{Packet, get_data}
use wetnork.Tunnel.Header.{
  ReliablePacketHeader, reliable_header, reliable_size, read_reliable, read_reliable-defined,
  get_seq, ntohl, ack,
}
use wetnork.Tunnel.Reliable.{ReliableChannel, Effect, receive, read_data, read_header, read_packet}
use wetnork.Tunnel.Reliable.Replies.{gather_ack}
use wetnork.Tunnel.Reliable.Timer.{
  Below, reads, ended, settled, handle, handle_below, IsWritten, ended-IsWritten,
}
use wetnork.Exceptions.{Outcome}

abbrev pub last_seq : ℕ
last_seq = 2 ^ 32 - 1

-- The packets are read one after another, however each read ends.
unfoldable pub read_packets :
    Below
    → ReliableChannel
    → List Packet
    → ReliableChannel × List Effect × List (Outcome (Unit {0}))
read_packets below c [] = (c, [], [])
read_packets below c (p ∷ ps) =
    let (c', out, o) = handle_below below c (reads p) in
    let (c'', out', os) = read_packets below c' ps in (c'', out ++ out', o ∷ os)

-- A packet of bytes, at least the six of a header.
abbrev pub IsReadable : Packet → Type 0
IsReadable p = (reliable_size ≤ length (get_data p)) × All (λ b. b < 256) (get_data p)

abbrev pub IsNotReceived : Effect → Type 0
IsNotReceived (receive p) = ⊥
IsNotReceived _ = Unit {0}

-- The call returns, passes nothing on, and the number is still the last one.
pub record IsDeaf (r : Option (ReliableChannel × List Effect)) : Type 0 where
  pub channel : ReliableChannel
  pub effects : List Effect
  pub returns : r ≡ some (channel, effects)
  pub still_last : channel.peer_seq ≡ last_seq
  pub none_received : All IsNotReceived effects

deaf :
    (c : ReliableChannel) (es : List Effect)
    → c.peer_seq ≡ last_seq
    → All IsNotReceived es
    → IsDeaf (some (c, es))
deaf c es e d = record {
  channel = c;
  effects = es;
  returns = refl;
  still_last = e;
  none_received = d;
}

get_seq-read_reliable :
    (xs : List ℕ) (h : ReliablePacketHeader)
    → All (λ b. b < 256) xs
    → read_reliable xs ≡ some h
    → get_seq h ≤ last_seq
unfolding read_reliable get_seq ntohl
get_seq-read_reliable (cid ∷ flags ∷ a ∷ b ∷ c ∷ d ∷ rest) h (_, (_, (p, (q, (r, (s, _)))))) e =
    subst (λ x. get_seq x ≤ last_seq) (some-injective _ _ e) (omega (arith, p, q, r, s))
get_seq-read_reliable _ h v e = cc

read_data-IsDeaf :
    (c : ReliableChannel) (f : Packet) (h : ReliablePacketHeader)
    → get_seq h ≤ last_seq
    → c.peer_seq ≡ last_seq
    → IsDeaf (read_data c f h)
unfolding read_data
read_data-IsDeaf c f h small e =
    let old : ltb c.peer_seq (get_seq h) ≡ false = ground (arith, small, e) in
    rw (gather_ack (reliable_header c.cid ack (get_seq h)), old) (deaf c _ e (tt, tt))

read_header-IsDeaf :
    (c : ReliableChannel) (f : Packet) (h : ReliablePacketHeader)
    → get_seq h ≤ last_seq
    → c.peer_seq ≡ last_seq
    → IsDeaf (read_header c f h)
unfolding read_header
read_header-IsDeaf c f h small e =
    elim (Bool-cases (not (bit_and h.flags ack == 0) && c.local_seq == get_seq h)) [
      | inl this ↦ rw this (deaf _ _ e (tt, tt))
      | inr other ↦ rw other (elim (Bool-cases (h.flags == 0)) [
        | inl plain ↦ rw plain (read_data-IsDeaf c f h small e)
        | inr odd ↦ rw odd (deaf c [] e tt)
      ])
    ]

read_packet-IsDeaf :
    (c : ReliableChannel) (f : Packet)
    → IsReadable f
    → c.peer_seq ≡ last_seq
    → IsDeaf (read_packet c f)
unfolding read_packet
read_packet-IsDeaf c f (long, small) e = elim (read_reliable-defined (get_data f)) [
  | inl (h, q, _) ↦
      rw (q, read_packet)
        (read_header-IsDeaf c f h (get_seq-read_reliable (get_data f) h small q) e)
  | inr (_, short) ↦ absurd (omega arith)
]

-- All packets were read: none was passed on, the number is still the last one, and each read returned
-- or ended as a write of the stream below.
pub record AreUnheard (below : Below)
    (r : ReliableChannel × List Effect × List (Outcome (Unit {0}))) : Type 0 where
  pub still_last : r.0.peer_seq ≡ last_seq
  pub none_received : All IsNotReceived r.1
  pub written : All (IsWritten below) r.2

-- A channel that has passed on the packet of the largest 32-bit number passes on nothing ever after:
-- whatever readable packets arrive, and whether or not the writes of the stream below throw, it keeps
-- the number and hands none of them on, and each read returns or ends as one of these writes does.
pub read_packets-AreUnheard :
    (below : Below) (c : ReliableChannel) (ps : List Packet)
    → All IsReadable ps
    → c.peer_seq ≡ last_seq
    → AreUnheard below (read_packets below c ps)
unfolding read_packets handle_below handle
read_packets-AreUnheard below c [] v e = record { still_last = e; none_received = tt; written = tt }
read_packets-AreUnheard below c (p ∷ ps) v e =
    let first = read_packet-IsDeaf c p v.0 e in
    let step : handle_below below c (reads p)
        ≡ (first.channel, first.effects, ended below first.effects) =
      ap (settled below (reads p) c) first.returns in
    let rest = read_packets-AreUnheard below first.channel ps v.1 first.still_last in
    subst
      (λ (r : ReliableChannel × List Effect × Outcome (Unit {0})).
        let next = read_packets below r.0 ps in
        AreUnheard below (next.0, r.1 ++ next.1, r.2 ∷ next.2))
      (sym step)
      (record {
        still_last = rest.still_last;
        none_received =
            All-append IsNotReceived first.effects (read_packets below first.channel ps).1
              first.none_received rest.none_received;
        written = (ended-IsWritten below first.effects, rest.written);
      })
