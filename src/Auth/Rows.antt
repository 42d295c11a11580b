-- ===== src/Auth/Rows.antt =====
-- The refresh_tokens row of auth/repository.go. Its id is left out: nothing reads it, and token_hash
-- is unique.
use attendance_system.Prelude.{ℕ, Option}
use attendance_system.Text.{Text}
use attendance_system.Time.{Instant}

pub record RefreshToken : Type 0 where
  pub user_id : ℕ
  pub token_hash : Text
  pub expires_at : Instant
  pub revoked_at : Option Instant
