-- ===== src/Prelude/Text.antt =====
-- Decimal text, as f-strings and `strftime` write it.
use Prim.Native.Nat.{ℕ, zero, suc, ◌+◌, ◌/◌, ◌%◌}
use Prim.Native.String.{String, ◌++◌}
use aura_x.Prelude.Tests.{ltb, if◌then◌else◌}

pub digit : ℕ → String
digit zero = "0"
digit (suc zero) = "1"
digit (suc (suc zero)) = "2"
digit (suc (suc (suc zero))) = "3"
digit (suc (suc (suc (suc zero)))) = "4"
digit (suc (suc (suc (suc (suc zero))))) = "5"
digit (suc (suc (suc (suc (suc (suc zero)))))) = "6"
digit (suc (suc (suc (suc (suc (suc (suc zero))))))) = "7"
digit (suc (suc (suc (suc (suc (suc (suc (suc zero)))))))) = "8"
digit _ = "9"

-- The last `k` digits of `n`, zeros in front.
unfoldable pub padded : ℕ → ℕ → String
unfolding digit
padded zero n = ""
padded (suc k) n = padded k (n / 10) ++ digit (n % 10)

-- How many digits `n` has; a number has fewer digits than `n + 1` rounds.
width : ℕ → ℕ → ℕ
width zero n = 1
width (suc k) n = let rest = width k (n / 10) + 1 in if ltb n 10 then 1 else rest

-- `str(n)`
unfoldable pub str : ℕ → String
unfolding padded width
str n = padded (width n n) n
