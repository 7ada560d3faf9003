-- ===== src/Examples/Scripts.antt =====
-- The calls that two programs make on a channel, one after the other: measurements/api/main.c, and
-- hello_channel of examples/readme/main.c.
use riot_csp_module.Common.{ℕ, zero, suc, ◌+◌, ◌-◌, ◌*◌, ◌%◌, ◌^◌, List, [], ◌∷◌, ◌++◌}
use riot_csp_module.Channel.{channel_bufsize, size_bytes}

-- channel_send with some bytes, channel_send (c, nullptr, 0), channel_recv with a buffer of so many bytes,
-- channel_recv (c, nullptr)
pub data Call : Type 0 where
  sends : List ℕ → Call
  send_null : Call
  receives : ℕ → Call
  recv_null : Call

-- `for (i = 0; i != measure_count; ++i) { (test); }` of time_dispatch
pub time_dispatch : Call → ℕ → List Call → List Call
time_dispatch test zero after = after
time_dispatch test (suc count) after = test ∷ time_dispatch test count after

-- what time_dispatch adds to a total, as 32-bit words: `(b - a) - (inc_cost * measure_count)`
time_taken : ℕ → ℕ → ℕ → ℕ → ℕ
time_taken a b inc_cost count =
    let cost = inc_cost * count % 2 ^ 32 in (b + (2 ^ 32 - a) + (2 ^ 32 - cost)) % 2 ^ 32

-- `'a' + (char)i` in a char, as a byte, from `i` on
pub letters : ℕ → ℕ → List ℕ
letters i zero = []
letters i (suc left) = ((97 + i) % 256) ∷ letters (suc i) left

pub populate_buf : ℕ → List ℕ
populate_buf bufsz = letters 0 bufsz

-- sizeof (fits) and sizeof (unfits)
abbrev pub fits_size : ℕ
fits_size = channel_bufsize - size_bytes

abbrev pub unfits_size : ℕ
unfits_size = 2 * channel_bufsize

abbrev pub chan_measure_count : ℕ
chan_measure_count = 100

-- `func`, with `count` for chan_measure_count
pub func : ℕ → List Call
func count =
    time_dispatch (receives fits_size) count
      (recv_null ∷ time_dispatch (receives unfits_size) count (recv_null ∷ []))

-- what main sends on each of its four channels
pub measures : ℕ → List Call
measures count =
    time_dispatch (sends (populate_buf fits_size)) count
      (send_null ∷ time_dispatch (sends (populate_buf unfits_size)) count (send_null ∷ []))

-- hello_channel of examples/readme, and what main sends to it: text with the 0 behind it
abbrev pub hello_channel : List Call
hello_channel = receives 14 ∷ recv_null ∷ []

abbrev pub to_hello_channel : List ℕ → List Call
to_hello_channel text = sends (text ++ (0 ∷ [])) ∷ send_null ∷ []
