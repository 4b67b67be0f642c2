-- ===== src/Base/Words.antt =====
-- `uint64` arithmetic: native numbers with the wrap written out.
use Prim.Native.Nat.{ℕ, ◌+◌, ◌-◌, ◌*◌, ◌%◌, ◌^◌, ◌<◌}
use mathlib.Core.Path.{◌≡◌}
use native.Mathlib.Omega.{arith}

abbrev pub word : ℕ
word = 2 ^ 64

-- `math.MaxUint64`, also written `^uint64(0)`.
abbrev pub max_word : ℕ
max_word = 2 ^ 64 - 1

abbrev pub add64 : ℕ → ℕ → ℕ
add64 a b = (a + b) % 2 ^ 64

abbrev pub sub64 : ℕ → ℕ → ℕ
sub64 a b = (a + 2 ^ 64 - b) % 2 ^ 64

abbrev pub mul64 : ℕ → ℕ → ℕ
mul64 a b = (a * b) % 2 ^ 64

pub sub64-add64 : (a b : ℕ) → a < word → b < word → sub64 (add64 a b) a ≡ b
sub64-add64 a b ha hb = omega arith

pub add64_assoc : (a b c : ℕ) → add64 (add64 a b) c ≡ add64 a (b + c)
add64_assoc a b c = omega arith
