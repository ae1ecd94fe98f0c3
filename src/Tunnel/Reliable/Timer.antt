-- ===== src/Tunnel/Reliable/Timer.antt =====
-- One channel of net/Tunnel.ReliableChannel.cpp in its event loop: its user writes packets, its
-- owner hands it packets to read, and libev calls it when its timer runs out, which libev stops
-- before the call, since the timer has no repeat.
use wetnork.Base.{
  ℕ, ◌≤◌, ◌≡◌, ◌⊎◌, ◌∙◌, refl, ap, sym, subst, Bool, none, List, [], ◌∷◌, ◌++◌, Option, some, inl,
  inr, false, not, ◌&&◌, length, All, All-append, arith, Bool-cases, Option-cases, ltb, ◌==◌,
  if◌then◌else◌, bit_and,
}
use wetnork.Exceptions.{Outcome, ok, throw, fault, unfinished}
use wetnork.Packet.{Packet, packet, get_data}
use wetnork.Tunnel.Header.{
  ReliablePacketHeader, reliable_header, reliable_size, read_reliable-defined, get_seq, ack,
}
use wetnork.Tunnel.Reliable.{
  ReliableChannel, Effect, write, receive, can_send, reliable_channel, write_packet, on_timeout,
  read_data, read_header, read_packet,
}
use wetnork.Tunnel.Reliable.Replies.{ack_frame, gather_ack, write_packet_lem}

pub data Event : Type 0 where
  writes reads : Packet → Event
  expires : Event

unfoldable pub handle : ReliableChannel → Event → Option (ReliableChannel × List Effect)
handle c (writes p) = some ((write_packet c p).0, [])
handle c (reads p) = read_packet c p
handle c expires =
    if c.timeout_active then on_timeout (record c { timeout_active = false }) else some (c, [])

-- How a write of the stream below ends: a session that is not open throws, and so do others.
abbrev pub Below : Type 0
Below = Packet → Outcome Bool

abbrev pub and_then : Outcome Bool → Outcome (Unit {0}) → Outcome (Unit {0})
and_then (ok taken) rest = rest
and_then (throw e) rest = throw e
and_then fault rest = fault
and_then unfinished rest = unfinished

-- How a call of the channel ends that has these effects.
abbrev pub ended : Below → List Effect → Outcome (Unit {0})
ended below [] = ok tt
ended below (write p ∷ es) = let rest = ended below es in and_then (below p) rest
ended below (receive p ∷ es) = ended below es
ended below (can_send ∷ es) = ended below es

-- `readPacket` writes at its end, and an exception of the write skips nothing. `transmitQueue` starts
-- the timer after its write, unless that throws.
abbrev pub left_by :
    Event → ReliableChannel → ReliableChannel → Outcome (Unit {0}) → ReliableChannel
left_by expires c c' (ok u) = c'
left_by expires c c' _ = record c { timeout_active = false }
left_by _ c c' o = c'

-- What an event leaves, its effects, and how it ends.
abbrev pub settled :
    Below
    → Event
    → ReliableChannel
    → Option (ReliableChannel × List Effect)
    → ReliableChannel × List Effect × Outcome (Unit {0})
settled below e c none = (c, [], fault)
settled below e c (some (c', es)) = (left_by e c c' (ended below es), es, ended below es)

unfoldable pub handle_below :
    Below → ReliableChannel → Event → ReliableChannel × List Effect × Outcome (Unit {0})
unfolding handle
handle_below below c e = settled below e c (handle c e)

-- The loop goes on however an event ends.
unfoldable pub run :
    Below → ReliableChannel → List Event → ReliableChannel × List Effect × List (Outcome (Unit {0}))
run below c [] = (c, [], [])
run below c (e ∷ es) =
    let (c', out, o) = handle_below below c e in
    let (c'', out', os) = run below c' es in (c'', out ++ out', o ∷ os)

-- The call returns, or ends as a write of the stream below does.
abbrev pub IsWritten : Below → Outcome (Unit {0}) → Type 0
IsWritten below o = (o ≡ ok tt) ⊎ ((p : Packet) × (o ≡ ended below (write p ∷ [])))

Outcome-cases :
    (o : Outcome Bool)
    → ((taken : Bool) × (o ≡ ok taken))
      ⊎ ((rest other : Outcome (Unit {0})) → and_then o rest ≡ and_then o other)
Outcome-cases (ok taken) = inl (taken, refl)
Outcome-cases (throw e) = inr (λ rest other. refl)
Outcome-cases fault = inr (λ rest other. refl)
Outcome-cases unfinished = inr (λ rest other. refl)

first_write :
    (below : Below) (p : Packet) (o rest : Outcome (Unit {0}))
    → IsWritten below rest
    → and_then (below p) rest ≡ o
    → IsWritten below o
first_write below p o rest h e = elim (Outcome-cases (below p)) [
  | inl (taken, q) ↦ subst (IsWritten below) (sym (ap (λ x. and_then x rest) q) ∙ e) h
  | inr stops ↦ inr (p, sym e ∙ stops rest (ok tt))
]

pub ended-IsWritten : (below : Below) (es : List Effect) → IsWritten below (ended below es)
ended-IsWritten below [] = inl refl
ended-IsWritten below (write p ∷ es) =
    first_write below p _ (ended below es) (ended-IsWritten below es) refl
ended-IsWritten below (receive p ∷ es) = ended-IsWritten below es
ended-IsWritten below (can_send ∷ es) = ended-IsWritten below es

-- A packet that is read has the six bytes of a header.
abbrev pub HasHeader : Event → Type 0
HasHeader (reads p) = reliable_size ≤ length (get_data p)
HasHeader _ = Unit {0}

-- If the effect is a write at all, it writes an acknowledgement.
abbrev pub IsNoData : Effect → Type 0
IsNoData (write p) = (cid seq : ℕ) × (p ≡ packet (ack_frame cid seq) 0 reliable_size)
IsNoData _ = Unit {0}

-- The step returns; the timer is off after it, and it sent no data.
pub record IsQuiet (r : Option (ReliableChannel × List Effect)) : Type 0 where
  pub channel : ReliableChannel
  pub effects : List Effect
  pub returns : r ≡ some (channel, effects)
  pub timer_off : channel.timeout_active ≡ false
  pub no_data : All IsNoData effects

quiet :
    (c : ReliableChannel) (es : List Effect)
    → c.timeout_active ≡ false
    → All IsNoData es
    → IsQuiet (some (c, es))
quiet c es off d = record {
  channel = c;
  effects = es;
  returns = refl;
  timer_off = off;
  no_data = d;
}

read_data-IsQuiet :
    (c : ReliableChannel) (f : Packet) (h : ReliablePacketHeader)
    → c.timeout_active ≡ false
    → IsQuiet (read_data c f h)
unfolding read_data
read_data-IsQuiet c f h off =
    rw (gather_ack (reliable_header c.cid ack (get_seq h)))
      (elim (Bool-cases (ltb c.peer_seq (get_seq h))) [
        | inl new ↦ rw new (quiet _ _ off (tt, ((c.cid, get_seq h, refl), tt)))
        | inr old ↦ rw old (quiet _ _ off ((c.cid, get_seq h, refl), tt))
      ])

read_header-IsQuiet :
    (c : ReliableChannel) (f : Packet) (h : ReliablePacketHeader)
    → c.timeout_active ≡ false
    → IsQuiet (read_header c f h)
unfolding read_header
read_header-IsQuiet c f h off =
    elim (Bool-cases (not (bit_and h.flags ack == 0) && c.local_seq == get_seq h)) [
      | inl this ↦ rw this (quiet _ _ refl (tt, tt))
      | inr other ↦ rw other (elim (Bool-cases (h.flags == 0)) [
        | inl plain ↦ rw plain (read_data-IsQuiet c f h off)
        | inr odd ↦ rw odd (quiet c [] off tt)
      ])
    ]

read_packet-IsQuiet :
    (c : ReliableChannel) (f : Packet)
    → reliable_size ≤ length (get_data f)
    → c.timeout_active ≡ false
    → IsQuiet (read_packet c f)
unfolding read_packet
read_packet-IsQuiet c f long off = elim (read_reliable-defined (get_data f)) [
  | inl (h, e, _) ↦ rw (e, read_packet) (read_header-IsQuiet c f h off)
  | inr (_, short) ↦ absurd (omega arith)
]

write_packet-IsQuiet :
    (c : ReliableChannel) (p : Packet)
    → c.timeout_active ≡ false
    → IsQuiet (some ((write_packet c p).0, []))
write_packet-IsQuiet c p off = elim (Option-cases c.in_flight_packet) [
  | inl e ↦ rw ((write_packet_lem c p).0 e) (quiet _ [] off tt)
  | inr (q, e) ↦ rw ((write_packet_lem c p).1 q e) (quiet c [] off tt)
]

handle-IsQuiet :
    (c : ReliableChannel) (e : Event)
    → HasHeader e
    → c.timeout_active ≡ false
    → IsQuiet (handle c e)
unfolding handle
handle-IsQuiet c (writes p) h off = write_packet-IsQuiet c p off
handle-IsQuiet c (reads p) h off = read_packet-IsQuiet c p h off
handle-IsQuiet c expires h off = rw off (quiet (record c { timeout_active = false }) [] refl tt)

-- After all events the timer is off, nothing but acknowledgements was written, and each event returned
-- or ended as a write of the stream below.
pub record IsSilent (below : Below) (r : ReliableChannel × List Effect × List (Outcome (Unit {0})))
    : Type 0 where
  pub timer_off : r.0.timeout_active ≡ false
  pub no_data : All IsNoData r.1
  pub written : All (IsWritten below) r.2

left_by-off :
    (e : Event) (c c' : ReliableChannel) (o : Outcome (Unit {0}))
    → c'.timeout_active ≡ false
    → (left_by e c c' o).timeout_active ≡ false
left_by-off (writes p) c c' o h = h
left_by-off (reads p) c c' o h = h
left_by-off expires c c' (ok u) h = h
left_by-off expires c c' (throw e) h = refl
left_by-off expires c c' fault h = refl
left_by-off expires c c' unfinished h = refl

run-IsSilent :
    (below : Below) (c : ReliableChannel) (es : List Event)
    → All HasHeader es
    → c.timeout_active ≡ false
    → IsSilent below (run below c es)
unfolding run handle_below
run-IsSilent below c [] h off = record { timer_off = off; no_data = tt; written = tt }
run-IsSilent below c (e ∷ es) h off =
    let first = handle-IsQuiet c e h.0 off in
    let o = ended below first.effects in
    let c' = left_by e c first.channel o in
    let step : handle_below below c e ≡ (c', first.effects, o) =
      ap (settled below e c) first.returns in
    let rest = run-IsSilent below c' es h.1 (left_by-off e c first.channel o first.timer_off) in
    subst
      (λ (r : ReliableChannel × List Effect × Outcome (Unit {0})).
        let next = run below r.0 es in IsSilent below (next.0, r.1 ++ next.1, r.2 ∷ next.2))
      (sym step)
      (record {
        timer_off = rest.timer_off;
        no_data = All-append IsNoData first.effects (run below c' es).1 first.no_data rest.no_data;
        written = (ended-IsWritten below first.effects, rest.written);
      })

-- Whatever packets its user writes, whatever packets with a header it reads, and whether or not the
-- writes of the stream below throw: a new channel's timer is never started, so no packet of its user is
-- ever sent. All that it writes to the stream below are acknowledgements, and every call returns or ends
-- as one of these writes does.
pub run_never_sends :
    (below : Below) (cid : ℕ) (es : List Event)
    → All HasHeader es
    → IsSilent below (run below (reliable_channel cid) es)
unfolding reliable_channel
run_never_sends below cid es h = run-IsSilent below (reliable_channel cid) es h refl
