-- ===== src/Base/Decimal.antt =====
-- Texts of ASCII as bytes, and `str(n)`.
use Prim.Native.Char.{code}
use Prim.Native.String.{String}
use Prim.Native.Nat.{ℕ, zero, suc, ◌+◌, ◌/◌, ◌%◌}
use mathlib.Core.List.{[], ◌∷◌}
use ram_link.Base.Tests.{ltb, if◌then◌else◌}
use ram_link.Base.Slices.{Bytes}

abbrev pub codes : String → Bytes
codes String.[] = []
codes (String.◌∷◌ c s) = code c ∷ codes s

-- `str(n)`; a number has at most as many digits as it counts, and one more round
unfoldable pub digits_onto : ℕ → ℕ → Bytes → Bytes
digits_onto zero n rest = rest
digits_onto (suc fuel) n rest =
    let digit = 48 + n % 10 in
    let more = digits_onto fuel (n / 10) (digit ∷ rest) in if ltb n 10 then digit ∷ rest else more

abbrev pub decimal : ℕ → Bytes
decimal n = digits_onto (n + 1) n []
