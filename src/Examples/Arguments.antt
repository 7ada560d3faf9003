-- ===== src/Examples/Arguments.antt =====
-- examples/readme/simple.h: main sends its arguments over a channel, hello takes them. The channel is the
-- list of the messages that come over it, in order.
pub mod Arrive
use riot_csp_module.Common.{
  ℕ, zero, suc, Option, none, some, List, [], ◌∷◌, ◌++◌, length, ltb, if◌then◌else◌,
}
use riot_csp_module.Channel.{encode_size, decode_size, size_bytes}

-- What channel_send makes of its data: a message, or none if there are no bytes.
unfoldable pub message : List ℕ → List (List ℕ)
message [] = []
message (b ∷ bytes) = (b ∷ bytes) ∷ []

-- the loop of main: for each argument its length and its characters
unfoldable pub send_arguments : List (List ℕ) → List (List ℕ)
send_arguments [] = []
send_arguments (arg ∷ args) =
    message (encode_size (length arg)) ++ (message arg ++ send_arguments args)

-- main: the number of the arguments goes first
unfoldable pub main : List (List ℕ) → List (List ℕ)
main argv = message (encode_size (length argv)) ++ send_arguments argv

-- sizeof (buf)
abbrev pub buf_size : ℕ
buf_size = 256

-- a text in front of those that follow, if it fits in `buf`
abbrev pub stores : List ℕ → Option (List (List ℕ)) → Option (List (List ℕ))
stores text none = none
stores text (some later) = if ltb buf_size (length text) then none else some (text ∷ later)

-- The loop of hello, with `left` arguments to go: the texts that it stores in `buf`, or `none` if it waits
-- without end or a message is longer than its place. A text of 256 bytes or more goes to channel_drop,
-- by a thread that did not make the channel: it does not meet the sender.
unfoldable pub hello_loop : ℕ → List (List ℕ) → Option (List (List ℕ))
hello_loop zero messages = some []
hello_loop (suc left) [] = none
hello_loop (suc left) (str_len ∷ []) = none
hello_loop (suc left) (str_len ∷ text ∷ messages) =
    let later = hello_loop left messages in
    if ltb size_bytes (length str_len)
    then none
    else if ltb (decode_size str_len) buf_size
    then stores text later
    else none

unfoldable pub hello : List (List ℕ) → Option (List (List ℕ))
hello [] = none
hello (argc ∷ messages) =
    if ltb size_bytes (length argc) then none else hello_loop (decode_size argc) messages
