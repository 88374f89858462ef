-- ===== src/Udp/Gap.antt =====
-- The `int` difference of two amounts, which may be negative. The library's `ℤ` stands on another ℕ.
use jacktrip.Base.{if◌then◌else◌, leb, ℕ, ◌-◌}

pub data ℤ : Type 0 where
  pos : ℕ → ℤ
  negsuc : ℕ → ℤ

-- a - b
infixl 60 ◌-ℤ◌
abbrev pub ◌-ℤ◌ : ℕ → ℕ → ℤ
a -ℤ b = if leb b a then pos (a - b) else negsuc (b - a - 1)
