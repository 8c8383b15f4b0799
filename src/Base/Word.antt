-- ===== src/Base/Word.antt =====
-- Machine words: `uint32_t` and `size_t` arithmetic wraps.
use Prim.Native.Nat.{ℕ, ◌+◌, ◌-◌, ◌%◌}

abbrev pub size_mod : ℕ
size_mod = 18446744073709551616

abbrev pub uint32_mod : ℕ
uint32_mod = 4294967296

-- a + b and a - b on `size_t`.
abbrev pub add_size : ℕ → ℕ → ℕ
add_size a b = (a + b) % size_mod

abbrev pub sub_size : ℕ → ℕ → ℕ
sub_size a b = (a + size_mod - b) % size_mod

-- a + b and a - b on `uint32_t`.
abbrev pub add_uint32 : ℕ → ℕ → ℕ
add_uint32 a b = (a + b) % uint32_mod

abbrev pub sub_uint32 : ℕ → ℕ → ℕ
sub_uint32 a b = (a + uint32_mod - b) % uint32_mod
