-- ===== src/Examples/Prints/One.antt =====
-- main of examples/hello_world/main.c sends one message to two processes.
use riot_csp_module.Common.{◌≡◌, refl, Bool, true, false, not}
use riot_csp_module.Examples.Prints.{Text, csp_print, both_print}

-- One of the two processes gets to its end and the other waits for a message without end, whichever of them
-- receives first.
one_ends :
    (trying synchronize text test kek : Text) (test_first : Bool)
    → ((both_print trying synchronize text test kek test_first).0.ends ≡ test_first)
      × ((both_print trying synchronize text test kek test_first).1.ends ≡ not test_first)
unfolding both_print csp_print
one_ends trying synchronize text test kek true = (refl, refl)
one_ends trying synchronize text test kek false = (refl, refl)
