-- ===== src/Examples/Simple/Sums.antt =====
-- The sums and averages that main of measurements/simple_work/main.c prints.
use riot_csp_module.Common.{ℕ, zero, suc, ◌+◌, ◌*◌, ◌/◌, ◌%◌, ◌^◌, ◌<◌, ◌≤◌, ◌≡◌, ap, ◌∙◌, arith}
use riot_csp_module.Examples.Simple.{measure_count, add_times, sums, print_result, simple_main}

-- the sum of a time over `left` runs from the `i`-th on
abbrev pub total : (ℕ → ℕ) → ℕ → ℕ → ℕ
total time i zero = 0
total time i (suc left) = time i + total time (suc i) left

-- Each of the runs from the `i`-th on takes less than `most`.
abbrev pub AllBelow : ℕ → (ℕ → ℕ) → ℕ → ℕ → Type 0
AllBelow most time i zero = Unit
AllBelow most time i (suc left) = (time i < most) × AllBelow most time (suc i) left

same_sums :
    (a b c a' b' c' : ℕ) → a ≡ a' → b ≡ b' → c ≡ c' → ◌≡◌ {A = ℕ × ℕ × ℕ} (a, b, c) (a', b', c')
same_sums a b c a' b' c' e f g = rw (e, f, g)

add_times-exact :
    (t1 t2 t3 : ℕ → ℕ) (i left a b c : ℕ)
    → a + total t1 i left < 2 ^ 32
    → b + total t2 i left < 2 ^ 32
    → c + total t3 i left < 2 ^ 32
    → add_times (λ n. (t1 n, t2 n, t3 n)) i left (a, b, c)
      ≡ (a + total t1 i left, b + total t2 i left, c + total t3 i left)
unfolding add_times
add_times-exact t1 t2 t3 i zero a b c ha hb hc =
    same_sums a b c _ _ _ (omega arith) (omega arith) (omega arith)
add_times-exact t1 t2 t3 i (suc left) a b c ha hb hc =
    let a' : (a + t1 i) % 2 ^ 32 ≡ a + t1 i = omega arith in
    let b' : (b + t2 i) % 2 ^ 32 ≡ b + t2 i = omega arith in
    let c' : (c + t3 i) % 2 ^ 32 ≡ c + t3 i = omega arith in
    rw (a', b', c')
      (add_times-exact t1 t2 t3 (suc i) left (a + t1 i) (b + t2 i) (c + t3 i) (omega arith)
          (omega arith) (omega arith)
        ∙ same_sums _ _ _ _ _ _ (omega arith) (omega arith) (omega arith))

total-le :
    (most : ℕ) (time : ℕ → ℕ) (i left : ℕ)
    → AllBelow most time i left
    → total time i left ≤ left * most
total-le most time i zero h = omega arith
total-le most time i (suc left) h = omega (arith, total-le most time (suc i) left h.1, h.0)

-- If each run of each variant takes less than 2 ^ 32 / measure_count microseconds, the sums of main do not
-- wrap: it prints for each variant the sum of its ten times, and their average.
pub main-exact :
    (t1 t2 t3 : ℕ → ℕ)
    → AllBelow (2 ^ 32 / measure_count) t1 0 measure_count
    → AllBelow (2 ^ 32 / measure_count) t2 0 measure_count
    → AllBelow (2 ^ 32 / measure_count) t3 0 measure_count
    → simple_main (λ n. (t1 n, t2 n, t3 n)) ≡ (
      (total t1 0 measure_count, total t1 0 measure_count / measure_count),
      (total t2 0 measure_count, total t2 0 measure_count / measure_count),
      (total t3 0 measure_count, total t3 0 measure_count / measure_count),
    )
unfolding simple_main sums print_result
main-exact t1 t2 t3 h1 h2 h3 =
    ap (λ (s : ℕ × ℕ × ℕ). (print_result s.0, print_result s.1, print_result s.2))
      (add_times-exact t1 t2 t3 0 measure_count 0 0 0
          (omega (arith, total-le (2 ^ 32 / measure_count) t1 0 measure_count h1))
          (omega (arith, total-le (2 ^ 32 / measure_count) t2 0 measure_count h2))
          (omega (arith, total-le (2 ^ 32 / measure_count) t3 0 measure_count h3))
        ∙ same_sums _ _ _ _ _ _ (omega arith) (omega arith) (omega arith))
