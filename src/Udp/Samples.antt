-- ===== src/Udp/Samples.antt =====
-- A socket of net/UdpSocket.cpp with peers in an association list, for tests.
use wetnork.Base.{ℕ, ◌≡◌, refl, ap, ◌↔◌, List, [], ◌∷◌, Bool, true, replicate}
use wetnork.Address.Socket.{SocketAddress, native}
use wetnork.Dictionary.Assoc.{assoc}
use wetnork.Host.Registry.{same_text}
use wetnork.Host.Registry.Names.{same_text_iff}
use wetnork.Link.{udp_link}
use wetnork.Udp.{Links, UdpSocket}

unfoldable pub same_address : SocketAddress → SocketAddress → Bool
same_address a b = same_text (native a) (native b)

-- The address that native bytes are those of.
address_of : List ℕ → SocketAddress
address_of (f ∷ g ∷ p ∷ q ∷ bs) = record {
  family0 = f;
  family1 = g;
  port0 = p;
  port1 = q;
  rest = bs;
}
address_of _ = record { family0 = 0; family1 = 0; port0 = 0; port1 = 0; rest = [] }

pub same_address_iff : (a b : SocketAddress) → (same_address a b ≡ true) ↔ (a ≡ b)
unfolding same_address address_of
same_address_iff a b =
    let texts = same_text_iff (native a) (native b) in
    (λ h. ap address_of (texts.0 h), λ e. texts.1 (ap native e))

abbrev pub links : Links
links = assoc same_address (λ a. (same_address_iff a a).1 refl)

abbrev pub at_port : ℕ → SocketAddress
at_port p = record {
  family0 = 2;
  family1 = 0;
  port0 = 0;
  port1 = p;
  rest = 10 ∷ 0 ∷ 0 ∷ 1 ∷ replicate 20 0;
}

abbrev pub socket : UdpSocket links
socket = record {
  fd = 5;
  watching = true;
  peers = (at_port 80, udp_link 7 (at_port 80)) ∷ [];
  address = at_port 99;
}

abbrev pub name_of : ℕ → List ℕ
name_of p = 2 ∷ 0 ∷ 0 ∷ p ∷ 10 ∷ 0 ∷ 0 ∷ 1 ∷ replicate 8 0
