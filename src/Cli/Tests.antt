-- ===== src/Cli/Tests.antt =====
-- Runs of the parser of numbers, and its theorem at a concrete text.
use inkling_in_c.Cli.{unsigned_digits, parse_unsigned}
use inkling_in_c.Cli.Exact.{parse_unsigned_exact}
use inkling_in_c.Prelude.{codes, ◌<◌, ◌≡◌, u64_max, length, some, none, refl, ◌⊎◌, arith}
use inkling_in_c.Json.Integers.{Fits, decimal}

parse_unsigned_runs : parse_unsigned (codes "1048576") 2000000 ≡ some 1048576
unfolding parse_unsigned unsigned_digits
parse_unsigned_runs = refl

parse_unsigned_refuses : parse_unsigned (codes "18446744073709551616") u64_max ≡ none
unfolding parse_unsigned unsigned_digits
parse_unsigned_refuses = refl

parse_unsigned_exact_example :
    ((0 < length (codes "250"))
      × Fits 255 0 (codes "250")
      × (parse_unsigned (codes "250") 255 ≡ some (decimal 0 (codes "250"))))
    ⊎ ((¬ ((0 < length (codes "250")) × Fits 255 0 (codes "250")))
        × (parse_unsigned (codes "250") 255 ≡ none))
parse_unsigned_exact_example = parse_unsigned_exact (codes "250") 255 (omega arith) (omega arith)
