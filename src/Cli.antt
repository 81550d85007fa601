-- ===== src/Cli.antt =====
-- src/cli/inkling_run.c: the numbers of the command line.
pub mod Exact
mod Tests
use inkling_in_c.Prelude.{
  ℕ, Bytes, Option, some, none, ◌∷◌, ◌-◌, [], ◌*◌, ◌+◌, ◌%◌, ◌^◌, if◌then◌else◌, ltb, ◌||◌, ◌/◌,
}

-- The loop of `parse_unsigned`; the arithmetic wraps as `uint64_t` does.
unfoldable pub unsigned_digits : ℕ → ℕ → Bytes → Option ℕ
unsigned_digits maximum value [] = some value
unsigned_digits maximum value (c ∷ cs) =
    let digit = c - b'0' in
    let rest = unsigned_digits maximum ((value * 10 + digit) % 2 ^ 64) cs in
    if ltb c b'0' || ltb b'9' c
    then none
    else if ltb ((maximum - digit) / 10) value
    then none
    else rest

-- `parse_unsigned`, on the bytes before the NUL.
unfoldable pub parse_unsigned : Bytes → ℕ → Option ℕ
unfolding unsigned_digits
parse_unsigned [] maximum = none
parse_unsigned (c ∷ cs) maximum = unsigned_digits maximum 0 (c ∷ cs)
