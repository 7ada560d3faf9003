-- ===== src/Examples/Plexer.antt =====
-- examples/packet_plexer/main.c: a process that hands packets on to the handlers they are for, and the
-- thread that makes both. A channel is the list of the messages that come over it, in order.
pub mod Routes
pub mod Streams
use riot_csp_module.Common.{
  ℕ, zero, suc, ◌+◌, ◌%◌, Bool, true, false, List, [], ◌∷◌, ◌++◌, ◌==◌, ltb, not, if◌then◌else◌,
  Option, none, some,
}

-- struct packet. The id is the 32-bit word of an int, which as a size_t is compared with the number of
-- streams.
pub record Packet : Type 0 where
  pub id : ℕ
  pub payload : List ℕ

-- -1
abbrev pub close_id : ℕ
close_id = 4294967295

-- What a process sends: the stream, and the packet.
abbrev pub Sends : Type 0
Sends = List (ℕ × Packet)

-- `for (i …; i != stream_count; ++i) channel_send (streams[i], …)`, with `left` streams left
pub send_all : ℕ → ℕ → Packet → Sends
send_all i zero p = []
send_all i (suc left) p = (i, p) ∷ send_all (suc i) left p

-- The loop of packet_plexer over the packets that it receives: what it sends, and whether it leaves the
-- loop, closes its channel and returns, or waits for a packet.
pub plex : ℕ → List Packet → Sends × Bool
plex stream_count [] = ([], false)
plex stream_count (p ∷ ps) =
    let rest = plex stream_count ps in
    if p.id == close_id
    then (send_all 0 stream_count p, true)
    else if not (ltb p.id stream_count)
    then ([], true)
    else ((p.id, p) ∷ rest.0, rest.1)

pub packet_plexer : ℕ → List Packet → Sends × Bool
packet_plexer stream_count ps = if stream_count == 0 then ([], true) else plex stream_count ps

-- packet_handler: the packets that it prints, and whether it closes its channel and returns.
pub packet_handler : List Packet → List Packet × Bool
packet_handler [] = ([], false)
packet_handler (p ∷ ps) =
    let rest = packet_handler ps in
    if p.id == close_id then (p ∷ [], true) else (p ∷ rest.0, rest.1)

-- PLEXER_COUNT
abbrev pub plexer_count : ℕ
plexer_count = 5

-- the number of texts in packet_data_table
abbrev packet_table_count : ℕ
packet_table_count = 5

abbrev zeros : ℕ → List ℕ
zeros zero = []
zeros (suc n) = 0 ∷ zeros n

-- The nine bytes of "packet_1" to "packet_5", with the zero at the end, in a field of 64 bytes.
abbrev packet_data : ℕ → List ℕ
packet_data choice = 112 ∷ 97 ∷ 99 ∷ 107 ∷ 101 ∷ 116 ∷ 95 ∷ (49 + choice) ∷ 0 ∷ zeros 55

abbrev pub end_packet : Packet
end_packet = record { id = close_id; payload = zeros 64 }

-- The packets that csp_plexer sends before the end, by the two numbers of random () for each.
pub random_packets : List (ℕ × ℕ) → List Packet
random_packets [] = []
random_packets ((r, q) ∷ rs) =
    record { id = r % plexer_count; payload = packet_data (q % packet_table_count) }
    ∷ random_packets rs

pub csp_plexer : List (ℕ × ℕ) → List Packet
csp_plexer rs = random_packets rs ++ (end_packet ∷ [])

-- The last loop of csp_plexer, one turn: whether it leaves the loop, by what csp_running says of each
-- process in turn.
wait_leaves : List Bool → Bool
wait_leaves [] = true
wait_leaves (running ∷ rest) = let l = wait_leaves rest in if not running then false else l

-- main over the characters that getchar returns: the result of csp_plexer that it exits with at a 'q', or
-- `none` if it still loops after these characters
exit_loop : ℕ → List ℕ → Option ℕ
exit_loop ret [] = none
exit_loop ret (ch ∷ chars) = let rest = exit_loop ret chars in if ch == 113 then some ret else rest
