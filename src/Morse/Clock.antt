-- ===== src/Morse/Clock.antt =====
-- morse_link.py: the node's clock of 32 bits. `x & UINT32` is `x % 2 ^ 32`.
use espstation.Common.{ℕ, ◌+◌, ◌-◌, ◌/◌, ◌%◌, ◌^◌}

-- `(now - then) & UINT32`, where the difference may be negative.
abbrev pub wrapped : ℕ → ℕ → ℕ
wrapped now start = (now + (2 ^ 32 - start % 2 ^ 32)) % 2 ^ 32

abbrev pub elapsed_ms : ℕ → ℕ → ℕ
elapsed_ms now start = wrapped now start / 1000
