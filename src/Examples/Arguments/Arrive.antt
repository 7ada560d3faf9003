-- ===== src/Examples/Arguments/Arrive.antt =====
-- hello of examples/readme/simple.h gets what main sends.
use riot_csp_module.Common.{
  ℕ, ◌<◌, ◌^◌, ◌≡◌, refl, some, List, [], ◌∷◌, length, arith, ltb-eq_false, ltb-eq_true,
}
use riot_csp_module.Channel.{encode_size, decode-encode_size, length-encode_size, size_bytes}
use riot_csp_module.Examples.Arguments.{message, send_arguments, main, hello_loop, hello, buf_size}

-- Each argument has a character, and fewer than `buf` has room for.
abbrev AllShort : List (List ℕ) → Type 0
AllShort [] = Unit
AllShort (arg ∷ args) = (0 < length arg) × (length arg < buf_size) × AllShort args

message_some : (bytes : List ℕ) → 0 < length bytes → message bytes ≡ bytes ∷ []
unfolding message
message_some [] h = absurd (omega arith)
message_some (b ∷ bytes) h = refl

hello_loop-send_arguments :
    (args : List (List ℕ))
    → AllShort args
    → hello_loop (length args) (send_arguments args) ≡ some args
unfolding hello_loop send_arguments
hello_loop-send_arguments [] h = refl
hello_loop-send_arguments (arg ∷ args) h =
    rw
      (
        message_some (encode_size (length arg)) (omega (arith, length-encode_size (length arg))),
        message_some arg h.0,
        ltb-eq_false size_bytes (length (encode_size (length arg)))
            (omega (arith, length-encode_size (length arg))),
        decode-encode_size (length arg) (omega (arith, h.1)),
        ltb-eq_true (length arg) buf_size h.1,
        hello_loop-send_arguments args h.2,
        ltb-eq_false buf_size (length arg) (omega (arith, h.1)),
      )
      refl

-- If main has fewer than 2 ^ 32 arguments, and each is of 1 to 255 characters, hello gets all of them, in
-- their order.
hello-main :
    (argv : List (List ℕ)) → length argv < 2 ^ 32 → AllShort argv → hello (main argv) ≡ some argv
unfolding hello main
hello-main argv small h =
    rw
      (
        message_some (encode_size (length argv)) (omega (arith, length-encode_size (length argv))),
        ltb-eq_false size_bytes (length (encode_size (length argv)))
            (omega (arith, length-encode_size (length argv))),
        decode-encode_size (length argv) small,
      )
      (hello_loop-send_arguments argv h)
