-- ===== src/Storage/Int64.antt =====
-- Go's int64 as the 64-bit word that represents it: numbers from 2 ^ 63 on stand for the negative ones.
use veltrix_db.Base.{ℕ, ◌^◌, Bool, not, ◌&&◌, ◌||◌, ltb, if◌then◌else◌}

-- 0 < a
abbrev pub is_positive : ℕ → Bool
is_positive a = ltb 0 a && ltb a (2 ^ 63)

-- a < b
abbrev pub lt64 : ℕ → ℕ → Bool
lt64 a b = if ltb a (2 ^ 63) then ltb b (2 ^ 63) && ltb a b else ltb b (2 ^ 63) || ltb a b

-- a ≤ b
abbrev pub le64 : ℕ → ℕ → Bool
le64 a b = not (lt64 b a)
