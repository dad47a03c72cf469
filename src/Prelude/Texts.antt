-- ===== src/Prelude/Texts.antt =====
-- `std::string` as its bytes, and the decimal form in which a stream prints an unsigned number.
use Prim.Native.Nat.{ℕ, zero, suc, ◌+◌, ◌-◌, ◌/◌, ◌%◌, ◌^◌}
use Prim.Native.Char.{code}
use Prim.Native.String.{String}
use mathlib.Core.Path.{◌≡◌, refl}
use mathlib.Core.List.{List, [], ◌∷◌}
use native.Mathlib.Decide.{ℕ_discrete}
use mod_playerbots_economy.Prelude.Tests.{Equality, of_discrete, ltb, if◌then◌else◌}

abbrev pub Text : Type 0
Text = List ℕ

-- The bytes of an ASCII literal.
abbrev pub codes : String → Text
codes String.[] = []
codes (String.◌∷◌ c s) = code c ∷ codes s

unfoldable pub text_discrete : Discrete Text
unfolding ℕ_discrete
text_discrete = hlevel ℕ_discrete

instance abbrev pub text_eq : Equality Text
text_eq = of_discrete text_discrete

-- `digits` bounds the number of decimal digits: 20 are enough for 64 bits.
unfoldable pub decimal_digits : ℕ → ℕ → Text → Text
decimal_digits zero n rest = rest
decimal_digits (suc digits) n rest =
    let more = decimal_digits digits (n / 10) ((48 + n % 10) ∷ rest) in
    if ltb n 10 then (48 + n) ∷ rest else more

unfoldable pub decimal : ℕ → Text
unfolding decimal_digits
decimal n = decimal_digits 20 n []

decimal_zero : decimal 0 ≡ codes "0"
unfolding decimal
decimal_zero = refl

decimal_max : decimal (2 ^ 64 - 1) ≡ codes "18446744073709551615"
unfolding decimal
decimal_max = refl
