-- ===== src/Base/Decimal.antt =====
-- The decimal digits of a number: the `Display` text of an unsigned integer.
use Prim.Native.Nat.{ℕ, zero, suc, ◌/◌, ◌%◌}
use Prim.Native.Char.{Char}
use Prim.Native.String.{String}
use cosmic_pass.Base.Tests.{ltb, if◌then◌else◌}

abbrev digit : ℕ → Char
digit zero = "0"
digit (suc zero) = "1"
digit (suc (suc zero)) = "2"
digit (suc (suc (suc zero))) = "3"
digit (suc (suc (suc (suc zero)))) = "4"
digit (suc (suc (suc (suc (suc zero))))) = "5"
digit (suc (suc (suc (suc (suc (suc zero)))))) = "6"
digit (suc (suc (suc (suc (suc (suc (suc zero))))))) = "7"
digit (suc (suc (suc (suc (suc (suc (suc (suc zero)))))))) = "8"
digit _ = "9"

-- The digits in front of `rest`. The fuel is a number above `n`.
unfoldable pub show_fuel : ℕ → ℕ → String → String
show_fuel zero n rest = rest
show_fuel (suc fuel) n rest =
    let more = show_fuel fuel (n / 10) (String.◌∷◌ (digit (n % 10)) rest) in
    if ltb n 10 then String.◌∷◌ (digit n) rest else more

unfoldable pub show_decimal : ℕ → String
unfolding show_fuel
show_decimal n = show_fuel (suc n) n String.[]
