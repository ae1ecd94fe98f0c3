-- ===== src/Stream/Examples.antt =====
-- The gathering write of include/network.hpp at concrete packets.
use wetnork.Base.{◌≡◌, [], ◌∷◌, some, arith}
use wetnork.Packet.{packet, packet_nocapture}
use wetnork.Stream.{gather}
use wetnork.Stream.Gather.{gather_lem}

gather_lem_example :
    gather (packet_nocapture (7 ∷ []) 0 1 ∷ packet (9 ∷ 1 ∷ 2 ∷ []) 1 2 ∷ [])
    ≡ some (packet (7 ∷ 1 ∷ 2 ∷ []) 0 3)
gather_lem_example =
    gather_lem (packet_nocapture (7 ∷ []) 0 1 ∷ packet (9 ∷ 1 ∷ 2 ∷ []) 1 2 ∷ []) (omega arith)
      (omega arith)
