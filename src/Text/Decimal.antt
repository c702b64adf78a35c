-- ===== src/Text/Decimal.antt =====
-- Decimal numbers as `str(n)` and f"{n:02d}" write them.
use k8s_dr.Prelude.{ℕ, zero, suc, ◌/◌, ◌%◌, String, ltb, if◌then◌else◌}
use k8s_dr.Calendar.Format.{digit, put_two}

show_from : ℕ → ℕ → String → String
unfolding digit
show_from zero n acc = acc
show_from (suc fuel) n acc =
    let rest = show_from fuel (n / 10) (String.◌∷◌ (digit (n % 10)) acc) in
    if ltb n 10 then String.◌∷◌ (digit n) acc else rest

-- The number of digits is at most the number, and one more.
unfoldable pub show : ℕ → String
unfolding show_from
show n = show_from (suc n) n ""

unfoldable pub show_two : ℕ → String
unfolding show put_two digit
show_two n = if ltb n 100 then put_two n "" else show n
