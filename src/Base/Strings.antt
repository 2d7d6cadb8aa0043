-- ===== src/Base/Strings.antt =====
-- String literals as texts, joining texts, and numbers in decimal.
use Prim.Native.String.{String}
use Prim.Native.Char.{code}
use Prim.Native.Nat.{ℕ, zero, suc, ◌+◌, ◌/◌, ◌%◌}
use mathlib.Core.List.{List, [], ◌∷◌, ◌++◌}
use nabla.Base.Tests.{Text, ◌==◌, if◌then◌else◌}

abbrev pub codes : String → Text
codes String.[] = []
codes (String.◌∷◌ c s) = code c ∷ codes s

-- The pieces of a `format!`, one after the other.
unfoldable pub concat : List Text → Text
concat [] = []
concat (t ∷ ts) = t ++ concat ts

-- `ts.join(sep)`.
unfoldable pub join : Text → List Text → Text
join sep [] = []
join sep (t ∷ []) = t
join sep (t ∷ u ∷ ts) = t ++ (sep ++ join sep (u ∷ ts))

unfoldable pub decimal_loop : ℕ → ℕ → Text → Text
decimal_loop zero n out = (b'0' + n % 10) ∷ out
decimal_loop (suc fuel) n out =
    let more = decimal_loop fuel (n / 10) ((b'0' + n % 10) ∷ out) in
    if n / 10 == 0 then (b'0' + n % 10) ∷ out else more

-- `{}` of an unsigned number, which has fewer digits than its value plus two.
unfoldable pub decimal : ℕ → Text
decimal n = decimal_loop n n []
