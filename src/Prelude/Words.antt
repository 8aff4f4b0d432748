-- ===== src/Prelude/Words.antt =====
-- Machine integers as numbers below a power of two, bytes, and C strings.
use Prim.Native.Char.{code}
use Prim.Native.String.{String}
use Prim.Native.Nat.{ℕ, zero, suc, ◌+◌, ◌-◌, ◌%◌}
use mathlib.Core.Bool.{Bool, true, ◌&&◌}
use components_mcu.Prelude.Lists.{get_or}
use mathlib.Core.List.{List, [], ◌∷◌}
use components_mcu.Prelude.Tests.{◌==◌, if◌then◌else◌}

-- `uint32_t`, `unsigned` and the bit pattern of an `int` of 32 bits.
abbrev pub u32_mod : ℕ
u32_mod = 4_294_967_296

abbrev pub add32 : ℕ → ℕ → ℕ
add32 a b = (a + b) % u32_mod

abbrev pub sub32 : ℕ → ℕ → ℕ
sub32 a b = (a + u32_mod - b) % u32_mod

abbrev pub Bytes : Type 0
Bytes = List ℕ

-- The bytes of an ASCII literal.
abbrev pub codes : String → Bytes
codes String.[] = []
codes (String.◌∷◌ c s) = code c ∷ codes s

-- The C string at the start of a buffer; the end of the buffer ends it too.
abbrev pub c_str : Bytes → Bytes
c_str [] = []
c_str (c ∷ cs) = if c == 0 then [] else c ∷ c_str cs

-- `strncmp(a, b, n) == 0`.
abbrev pub same_prefix : ℕ → Bytes → Bytes → Bool
same_prefix zero a b = true
same_prefix (suc n) [] b = get_or b 0 0 == 0
same_prefix (suc n) (c ∷ a) [] = c == 0
same_prefix (suc n) (c ∷ a) (d ∷ b) = (c == d) && (if c == 0 then true else same_prefix n a b)
