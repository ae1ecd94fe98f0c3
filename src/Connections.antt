-- ===== src/Connections.antt =====
-- The connections of slots to the signals of streams, sessions, links, sockets and channels:
-- common/Stream.cpp, net/CryptoSession.cpp, net/Link.cpp, net/Socket.cpp and net/Tunnel.Channel.cpp.
-- The signals are those of Signals; each is given to the function that connects to it.
use wetnork.Base.{
  ℕ, ◌≡◌, refl, ap, ◌∙◌, sym, List, [], ◌∷◌, ◌++◌, Bool, true, false, not, ◌&&◌, ◌==◌,
  if◌then◌else◌, arith, Bool-cases, inl, inr,
}
use wetnork.Signals.{Signals, Entries, has_connection, without}

module _ (S : Signals) where
  -- Of `Stream`, with its signal `read`.
  unfoldable pub connect_read : ℕ → S.Signal → S.Signal × ℕ
  connect_read slot read = S.connect slot read

  -- Of `CryptoSession` and of `Link`, each with its signal `stateChanged`.
  unfoldable pub connect_state_changed : ℕ → S.Signal → S.Signal × ℕ
  connect_state_changed slot state_changed = S.connect slot state_changed

  unfoldable pub connect_link_state_changed : ℕ → S.Signal → S.Signal × ℕ
  connect_link_state_changed slot state_changed = S.connect slot state_changed

  -- Of `Socket`, with its signal `accept`.
  unfoldable pub listen : ℕ → S.Signal → S.Signal × ℕ
  listen slot accept = S.connect slot accept

  -- Of `Channel`, with its signals `receive` and `canSend`.
  unfoldable pub connect_receive : ℕ → S.Signal → S.Signal × ℕ
  connect_receive slot receive = S.connect slot receive

  unfoldable pub connect_can_send : ℕ → S.Signal → S.Signal × ℕ
  connect_can_send slot can_send = S.connect slot can_send

-- What others do with a signal that a slot is connected to.
pub data Event : Type 0 where
  connects disconnects : ℕ → Event

unfoldable pub run : (S : Signals) → List Event → S.Signal → S.Signal
run S [] s = s
run S (connects slot ∷ es) s = run S es (S.connect slot s).0
run S (disconnects c ∷ es) s = run S es (S.disconnect c s)

-- None of them disconnects the connection.
abbrev pub spares : ℕ → List Event → Bool
spares c [] = true
spares c (connects slot ∷ es) = spares c es
spares c (disconnects k ∷ es) = not (k == c) && spares c es

-- The slots that the connection stands for.
abbrev pub slots_of : ℕ → Entries → List ℕ
slots_of c [] = []
slots_of c ((k, at) ∷ es) = let rest = slots_of c es in if k == c then at ∷ rest else rest

no_slots : (c : ℕ) (es : Entries) → has_connection c es ≡ false → slots_of c es ≡ []
no_slots c [] h = refl
no_slots c ((k, at) ∷ es) h = ground (arith, h, no_slots c es)

slots_of-append :
    (c k at : ℕ) (es : Entries) → (k == c) ≡ false → slots_of c (es ++ (k, at) ∷ []) ≡ slots_of c es
slots_of-append c k at [] h = rw h refl
slots_of-append c k at ((j, a) ∷ es) h = rw (slots_of-append c k at es h) refl

slots_of-append_own :
    (c at : ℕ) (es : Entries)
    → has_connection c es ≡ false
    → slots_of c (es ++ (c, at) ∷ []) ≡ at ∷ []
slots_of-append_own c at [] h = ground arith
slots_of-append_own c at ((j, a) ∷ es) h = ground (arith, h, slots_of-append_own c at es)

slots_of-without :
    (c k : ℕ) (es : Entries) → (k == c) ≡ false → slots_of c (without k es) ≡ slots_of c es
slots_of-without c k [] h = refl
slots_of-without c k ((j, a) ∷ es) h = ground (arith, h, slots_of-without c k es h)

gone : (c : ℕ) (es : Entries) → slots_of c (without c es) ≡ []
gone c [] = refl
gone c ((j, a) ∷ es) = ground (arith, gone c es)

another :
    (S : Signals) (c slot at : ℕ) (s : S.Signal)
    → slots_of c (S.entries s) ≡ slot ∷ []
    → ((S.connect at s).1 == c) ≡ false
another S c slot at s e = elim (Bool-cases ((S.connect at s).1 == c)) [
  | inl same ↦
      let k : (S.connect at s).1 ≡ c = ground (arith, same) in
      let free : has_connection c (S.entries s) ≡ false =
        ap (λ n. has_connection n (S.entries s)) (sym k) ∙ S.connect_fresh at s in
      let none_ = no_slots c (S.entries s) free in cc
  | inr differ ↦ differ
]

keeps :
    (S : Signals) (c slot : ℕ) (es : List Event) (s : S.Signal)
    → slots_of c (S.entries s) ≡ slot ∷ []
    → spares c es ≡ true
    → slots_of c (S.entries (run S es s)) ≡ slot ∷ []
unfolding run
keeps S c slot [] s e h = e
keeps S c slot (connects at ∷ es) s e h =
    keeps S c slot es (S.connect at s).0
      (ap (slots_of c) (S.entries-connect at s)
        ∙ slots_of-append c (S.connect at s).1 at (S.entries s) (another S c slot at s e)
        ∙ e)
      h
keeps S c slot (disconnects k ∷ es) s e h =
    let differ : (k == c) ≡ false = ground (arith, h) in
    let rest : spares c es ≡ true = ground (arith, h) in
    keeps S c slot es (S.disconnect k s)
      (ap (slots_of c) (S.entries-disconnect k s) ∙ slots_of-without c k (S.entries s) differ ∙ e)
      rest

-- A slot that is connected to a signal is called by its connection, once, as long as that is not
-- disconnected, whatever else is connected and disconnected meanwhile, and not any more when it is.
pub connect_read-lasts :
    (S : Signals) (slot : ℕ) (read : S.Signal) (es : List Event)
    → spares (connect_read S slot read).1 es ≡ true
    → let (read', c) = connect_read S slot read in
      (slots_of c (S.entries (run S es read')) ≡ slot ∷ [])
      × (slots_of c (S.entries (S.disconnect c (run S es read'))) ≡ [])
unfolding connect_read
connect_read-lasts S slot read es h =
    let c = (S.connect slot read).1 in
    let first =
      ap (slots_of c) (S.entries-connect slot read)
      ∙ slots_of-append_own c slot (S.entries read) (S.connect_fresh slot read) in
    (
      keeps S c slot es (S.connect slot read).0 first h,
      ap (slots_of c) (S.entries-disconnect c (run S es (S.connect slot read).0))
          ∙ gone c (S.entries (run S es (S.connect slot read).0)),
    )
