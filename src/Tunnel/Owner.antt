-- ===== src/Tunnel/Owner.antt =====
-- net/Tunnel.cpp: a tunnel over the session of net/CryptoSession.cpp that it owns, which is the stream
-- of its data channel.
use wetnork.Base.{
  ◌+◌, ◌^◌, ◌<◌, ◌≡◌, refl, ap, ◌∙◌, ◌↔◌, ◌∷◌, Option, none, some, Bool, true, false, if◌then◌else◌,
  inl, inr, Bool-cases, arith, take_all, subst, length,
}
use wetnork.Exceptions.{Outcome, ok, throw, fault, unfinished}
use wetnork.Memory.{load, load_lem}
use wetnork.Packet.{Packet, bytes, IsValid}
use wetnork.Packet.View.{length-bytes}
use wetnork.Crypto.Library.{Library}
use wetnork.Crypto.Session.{Session, M, after, closed, set_state, gnutls_bye, gnutls_record_send}
use wetnork.Crypto.Session.Transport.{IsPlain, IsPlain-after, gnutls_bye-IsPlain}
use wetnork.Crypto.Handlers.{is_open, is_over, close, write, sent, refuse_write}
use wetnork.Tun.{TunDevice}
use wetnork.Tunnel.Data.{Tunnel, tunnel, write_packet}
use wetnork.Tunnel.Data.Routes.{write_packet_lem}

-- How a destructor's body ends. A destructor is `noexcept`, so an exception that leaves it makes
-- `std::terminate` end the program.
pub data Ending : Type 0 where
  left terminated undefined cut_off : Ending

abbrev pub ending : {A : Type 0} → Outcome A → Ending
ending (ok a) = left
ending (throw e) = terminated
ending fault = undefined
ending unfinished = cut_off

-- A `unique_ptr` that is moved from is null: what the new one has, and what is left of the other.
abbrev move_pointer {ℓ} : {A : Type ℓ} → Option A → Option A × Option A
move_pointer p = (p, none)

-- What the constructor makes: the session and the device, and the object with the data channel.
pub record Made (L : Library) : Type 0 where
  pub link : Session L
  pub device : Option TunDevice
  pub channels : Tunnel

-- `connectRead` through a pointer to a device.
abbrev connect_read : {A : Type 0} → Option TunDevice → A → Outcome A
connect_read none a = fault
connect_read (some d) a = ok a

module _ {L : Library} where
  -- The constructor. In its body `tun` is the parameter, which the member was moved from.
  unfoldable pub make : Session L → Option TunDevice → Outcome (Made L)
  make link tun =
      let (member, parameter) = move_pointer tun in
      connect_read parameter (record { link = link; device = member; channels = tunnel })

  -- The body of `Tunnel::~Tunnel`, before the members are destroyed.
  unfoldable pub destroy : Session L → Session L × Ending
  destroy s = let (t, o) = close s in (t, ending o)

  abbrev pub over_link : Option Packet → M L Bool
  over_link none s = (s, fault)
  over_link (some f) s = write f s

  -- `tunRead` and `UnreliableChannel::writePacket`, whose `next` is the session.
  unfoldable pub tun_read_over : Packet → M L Bool
  tun_read_over p s = over_link (write_packet tunnel.data_channel p) s

module _ {L : Library} where
  -- The constructor of a tunnel is undefined, whatever session and whatever device it is given.
  pub make_faults : (link : Session L) (tun : Option TunDevice) → make link tun ≡ fault
  unfolding make
  make_faults link tun = refl

is_terminated : Ending → Bool
is_terminated terminated = true
is_terminated _ = false

plain_leaves : {A : Type 0} (o : Outcome A) → IsPlain o → is_terminated (ending o) ≡ false
unfolding is_terminated
plain_leaves (ok a) h = refl
plain_leaves fault h = refl
plain_leaves (throw e) h = elim h [ ]
plain_leaves unfinished h = elim h [ ]

module _ {L : Library} where
  closing-IsPlain : (s : Session L) → IsPlain (after (λ _. set_state closed) (gnutls_bye s)).1
  unfolding set_state
  closing-IsPlain s =
      IsPlain-after (λ _. set_state closed) (gnutls_bye s) (gnutls_bye-IsPlain s) (λ a t _. tt)

  terminated_as_over : (s : Session L) → is_terminated (destroy s).1 ≡ is_over s.state
  unfolding destroy close is_terminated
  terminated_as_over s = elim (Bool-cases (is_over s.state)) [
    | inl over ↦ rw over refl
    | inr going ↦ rw going (plain_leaves _ (closing-IsPlain s))
  ]

is_terminated-terminated : (e : Ending) → (e ≡ terminated) ↔ (is_terminated e ≡ true)
unfolding is_terminated
is_terminated-terminated left = (λ e. ap is_terminated e, λ e. cc)
is_terminated-terminated terminated = (λ e. refl, λ e. refl)
is_terminated-terminated undefined = (λ e. ap is_terminated e, λ e. cc)
is_terminated-terminated cut_off = (λ e. ap is_terminated e, λ e. cc)

module _ {L : Library} where
  -- Destroying a tunnel ends the program exactly if its session was never opened, or is closed or
  -- aborted; whatever GnuTLS and the stream below do, no other session makes the destructor throw.
  pub destroy-terminated : (s : Session L) → ((destroy s).1 ≡ terminated) ↔ (is_over s.state ≡ true)
  destroy-terminated s =
      subst (λ b. ((destroy s).1 ≡ terminated) ↔ (b ≡ true)) (terminated_as_over s)
        (is_terminated-terminated (destroy s).1)

  -- A packet from the device that lies in its block is handed to GnuTLS as one record, the byte 0 and
  -- the packet's bytes, if the session is open; otherwise it is refused with an exception.
  pub tun_read_over_lem :
      (p : Packet) (s : Session L)
      → IsValid p
      → 1 + p.length_ < 2 ^ 64
      → tun_read_over p s ≡ (
          if is_open s.state
          then after sent (gnutls_record_send (0 ∷ bytes p) s)
          else refuse_write s)
  unfolding tun_read_over write
  tun_read_over_lem p s v h =
      let size : length (0 ∷ bytes p) ≡ 1 + p.length_ = omega (arith, length-bytes p v) in
      let read : load (1 + p.length_) (0 ∷ bytes p) ≡ some (0 ∷ bytes p) =
        load_lem _ _ (omega arith) ∙ ap some (take_all _ _ (omega arith)) in
      elim (Bool-cases (is_open s.state)) [
        | inl going ↦ rw (write_packet_lem p v h, going, read)
        | inr not_open ↦ rw (write_packet_lem p v h, not_open)
      ]
