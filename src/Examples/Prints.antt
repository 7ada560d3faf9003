-- ===== src/Examples/Prints.antt =====
-- Programs that start processes which print: examples/goroutines/main.c, examples/hello_world/main.c, and
-- hello_world of examples/readme/main.c. A text is the list of its characters.
pub mod One
use riot_csp_module.Common.{
  ℕ, zero, suc, Bool, true, false, Option, none, some, List, [], ◌∷◌, ◌++◌,
}

abbrev pub Text : Type 0
Text = List ℕ

-- f of goroutines, from `i` on with `left` to go: what it prints in each turn
unfoldable pub f_loop : Text → ℕ → ℕ → List (Text × ℕ)
f_loop from i zero = []
f_loop from i (suc left) = (from, i) ∷ f_loop from (suc i) left

f : Text → List (Text × ℕ)
f from = f_loop from 0 3

-- hello_world of examples/hello_world: nothing for a null pointer
unfoldable pub hello_world : Option Text → List Text
hello_world none = []
hello_world (some args) = args ∷ []

-- hello_world of examples/readme has a text of its own for a null pointer.
readme_hello_world : Text → Option Text → List Text
readme_hello_world own none = own ∷ []
readme_hello_world own (some args) = args ∷ []

-- What a process prints, the messages that it leaves in its channel, and whether it gets to its end or
-- waits for a message.
pub record Printed : Type 0 where
  pub prints : List Text
  pub left : List Text
  pub ends : Bool

-- csp_print of hello_world over a buffered channel, where the receive with a null pointer does not wait:
-- its argument, `trying` and `synchronize` are the texts of its three other lines.
unfoldable pub csp_print : Text → Text → Text → List Text → Printed
csp_print trying synchronize arg [] = record { prints = arg ∷ trying ∷ []; left = []; ends = false }
csp_print trying synchronize arg (buf ∷ messages) = record {
  prints = arg ∷ trying ∷ buf ∷ synchronize ∷ [];
  left = messages;
  ends = true;
}

-- The two csp_print that main of hello_world starts, after it has sent `text`, in either order: "test"
-- first or "kek" first.
unfoldable pub both_print : Text → Text → Text → Text → Text → Bool → Printed × Printed
both_print trying synchronize text test kek true =
    let first = csp_print trying synchronize test (text ∷ []) in
    (first, csp_print trying synchronize kek first.left)
both_print trying synchronize text test kek false =
    let first = csp_print trying synchronize kek (text ∷ []) in
    (csp_print trying synchronize test first.left, first)
