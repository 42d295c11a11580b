-- ===== src/Access.antt =====
-- internal/middleware/role.go and the claims of internal/middleware/auth.go: who is calling, and
-- the ladder of roles.
use attendance_system.Prelude.{ℕ, Bool, true, false, leb}

-- `unknown` stands for every text that `roleRank` does not hold.
pub data Role : Type 0 where
  employee supervisor hr_admin super_admin unknown : Role

-- A missing key reads as 0.
abbrev pub role_rank : Role → ℕ
role_rank Role.employee = 1
role_rank Role.supervisor = 2
role_rank Role.hr_admin = 3
role_rank Role.super_admin = 4
role_rank Role.unknown = 0

abbrev pub at_least : Role → Role → Bool
at_least r min = leb (role_rank min) (role_rank r)

-- `Valid`: whether `roleRank` holds the role.
abbrev pub is_valid : Role → Bool
is_valid Role.unknown = false
is_valid _ = true

pub record Claims : Type 0 where
  pub user_id : ℕ
  pub role : Role
