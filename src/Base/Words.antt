-- ===== src/Base/Words.antt =====
-- Go's int and int64 as 64-bit patterns: arithmetic wraps around, and -1 is `word_mod - 1`.
use sabnzbd_go.Base.{Bool, ltb, ℕ, ◌%◌, ◌&&◌, ◌+◌, ◌-◌}

abbrev pub word_mod : ℕ
word_mod = 18446744073709551616

abbrev pub add_word : ℕ → ℕ → ℕ
add_word a b = (a + b) % 18446744073709551616

abbrev pub sub_word : ℕ → ℕ → ℕ
sub_word a b = (a + (18446744073709551616 - b % 18446744073709551616)) % 18446744073709551616

-- The pattern stands for a number above zero.
abbrev pub is_positive : ℕ → Bool
is_positive a = ltb 0 a && ltb a 9223372036854775808
