-- ===== src/Examples/Plexer/Routes.antt =====
-- Where the packets of examples/packet_plexer/main.c arrive.
use riot_csp_module.Common.{
  ℕ, zero, suc, ◌+◌, ◌≤◌, ◌<◌, ◌≡◌, inl, inr, refl, ap, ◌∙◌, true, List, [], ◌∷◌, ◌++◌, ◌==◌,
  if◌then◌else◌, Bool-cases, arith, ==_ne, ltb-eq_true,
}
use riot_csp_module.Examples.Plexer.{
  Packet, Sends, close_id, send_all, plex, packet_plexer, packet_handler, plexer_count,
  random_packets, csp_plexer, end_packet,
}

-- The packets that are sent on stream `i`, in order.
pub on_stream : ℕ → Sends → List Packet
on_stream i [] = []
on_stream i (s ∷ rest) = let more = on_stream i rest in if s.0 == i then s.1 ∷ more else more

-- The packets with id `i`.
pub for_stream : ℕ → List Packet → List Packet
for_stream i [] = []
for_stream i (p ∷ ps) = let more = for_stream i ps in if p.id == i then p ∷ more else more

-- Each packet is for one of the streams.
abbrev AllFor : ℕ → List Packet → Type 0
AllFor n [] = Unit
AllFor n (p ∷ ps) = (p.id < n) × AllFor n ps

-- `send_all` sends once on each of its streams.
send_all-misses :
    (i from left : ℕ) (p : Packet) → i < from → on_stream i (send_all from left p) ≡ []
unfolding send_all on_stream
send_all-misses i from zero p h = refl
send_all-misses i from (suc left) p h =
    rw (==_ne from i (omega arith), send_all-misses i (suc from) left p (omega arith))

send_all-hits :
    (i from left : ℕ) (p : Packet)
    → from ≤ i
    → i < from + left
    → on_stream i (send_all from left p) ≡ p ∷ []
unfolding send_all on_stream
send_all-hits i from zero p le lt = absurd (omega arith)
send_all-hits i from (suc left) p le lt = elim (Bool-cases (from == i)) [
  | inl same ↦ rw (same, send_all-misses i (suc from) left p (ground (arith, same)))
  | inr differ ↦
      rw (differ, send_all-hits i (suc from) left p (ground (arith, differ)) (omega arith))
]

plex-routes :
    (n i : ℕ) (ps : List Packet)
    → n < close_id
    → i < n
    → AllFor n ps
    → (on_stream i (plex n (ps ++ (end_packet ∷ []))).0 ≡ for_stream i ps ++ (end_packet ∷ []))
      × ((plex n (ps ++ (end_packet ∷ []))).1 ≡ true)
unfolding plex on_stream for_stream
plex-routes n i [] small lt h = (send_all-hits i 0 n end_packet (omega arith) (omega arith), refl)
plex-routes n i (p ∷ ps) small lt h =
    let rest = plex-routes n i ps small lt h.1 in
    rw (==_ne p.id close_id (omega (arith, h.0)), ltb-eq_true p.id n h.0)
      (elim (Bool-cases (p.id == i)) [
        | inl same ↦ rw same (ap (λ l. p ∷ l) rest.0, rest.1)
        | inr differ ↦ rw differ rest
      ])

-- Packets for the streams, and the packet that closes behind them: on each stream packet_plexer sends
-- the packets with the id of the stream, in their order, and then the packet that closes, and it
-- returns.
plexer-routes :
    (n i : ℕ) (ps : List Packet)
    → n < close_id
    → i < n
    → AllFor n ps
    → (on_stream i (packet_plexer n (ps ++ (end_packet ∷ []))).0
        ≡ for_stream i ps ++ (end_packet ∷ []))
      × ((packet_plexer n (ps ++ (end_packet ∷ []))).1 ≡ true)
unfolding packet_plexer
plexer-routes n i ps small lt h = rw (==_ne n 0 (omega arith)) (plex-routes n i ps small lt h)

for-AllFor : (n i : ℕ) (ps : List Packet) → AllFor n ps → AllFor n (for_stream i ps)
unfolding for_stream
for-AllFor n i [] h = h
for-AllFor n i (p ∷ ps) h = elim (Bool-cases (p.id == i)) [
  | inl same ↦ rw same (h.0, for-AllFor n i ps h.1)
  | inr differ ↦ rw differ (for-AllFor n i ps h.1)
]

handler-ends :
    (n : ℕ) (ps : List Packet)
    → n < close_id
    → AllFor n ps
    → packet_handler (ps ++ (end_packet ∷ [])) ≡ (ps ++ (end_packet ∷ []), true)
unfolding packet_handler
handler-ends n [] small h = refl
handler-ends n (p ∷ ps) small h =
    rw (==_ne p.id close_id (omega (arith, h.0)), handler-ends n ps small h.1)

random-AllFor : (rs : List (ℕ × ℕ)) → AllFor plexer_count (random_packets rs)
unfolding random_packets
random-AllFor [] = _
random-AllFor ((r, q) ∷ rs) = (omega arith, random-AllFor rs)

-- Whatever random () gives: each handler of csp_plexer prints the packets with its id, in the order in
-- which they were sent, and then the packet that closes, and returns; and the plexer returns.
pub csp_plexer-delivers :
    (i : ℕ) (rs : List (ℕ × ℕ))
    → i < plexer_count
    → (packet_handler (on_stream i (packet_plexer plexer_count (csp_plexer rs)).0)
        ≡ (for_stream i (random_packets rs) ++ (end_packet ∷ []), true))
      × ((packet_plexer plexer_count (csp_plexer rs)).1 ≡ true)
unfolding csp_plexer
csp_plexer-delivers i rs lt =
    let routed =
      plexer-routes plexer_count i (random_packets rs) (omega arith) lt (random-AllFor rs) in
    (
      ap packet_handler routed.0
          ∙ handler-ends plexer_count (for_stream i (random_packets rs)) (omega arith)
              (for-AllFor plexer_count i (random_packets rs) (random-AllFor rs)),
      routed.1,
    )
