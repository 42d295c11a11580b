-- ===== src/User/Validation.antt =====
-- user/validation.go.
use attendance_system.Prelude.{
  ℕ, String, Bool, not, ◌||◌, Option, none, some, ltb, ◌==◌, if◌then◌else◌, any, invalid, Result,
  ok, err, refuse_if, pos, ltb_ℤ,
}
use attendance_system.Text.{trim, Text, is_empty, byte_len}
use attendance_system.Access.{Role, is_valid}
use attendance_system.User.Store.{Page}

-- `normalizeEmail`; `to_lower` is Go's strings.ToLower, a table of Unicode.
abbrev pub normalize_email : (Text → Text) → Text → Text
normalize_email to_lower email = to_lower (trim email)

unfoldable pub check_name : String → String → Text → Result Text
check_name required too_long name =
    let trimmed = trim name in
    if is_empty trimmed
    then err (invalid required)
    else if ltb 100 (byte_len trimmed)
    then err (invalid too_long)
    else ok trimmed

abbrev pub has_at : Text → Bool
has_at email = any (λ c. c == b'@') email

abbrev pub min_password_len : ℕ
min_password_len = 8

unfoldable pub check_new_user : (Text → Text) → Text → Text → Result Text
check_new_user to_lower sent password =
    let email = normalize_email to_lower sent in
    if not (has_at email)
    then err (invalid "email is not an email address")
    else if ltb 254 (byte_len email)
    then err (invalid "email must be at most 254 characters")
    else if ltb (byte_len password) min_password_len
    then err (invalid "password must be at least %d bytes")
    else ok email

unfoldable pub check_role : Role → Result (Unit {0})
check_role role =
    refuse_if (not (is_valid role))
      (invalid "role %q is not one of employee, supervisor, hr_admin, super_admin")

unfoldable pub check_manager : ℕ → Option ℕ → Result (Unit {0})
check_manager user none = ok tt
check_manager user (some m) = refuse_if (m == user) (invalid "a user cannot be their own manager")

abbrev pub max_page_limit : ℕ
max_page_limit = 500

abbrev pub max_page_offset : ℕ
max_page_offset = 100000

unfoldable pub check_page : Page → Result Page
check_page page =
    if ltb_ℤ page.limit (pos 1) || ltb_ℤ (pos max_page_limit) page.limit
    then err (invalid "limit must be between 1 and %d")
    else if ltb_ℤ page.offset (pos 0)
    then err (invalid "offset cannot be negative")
    else if ltb_ℤ (pos max_page_offset) page.offset
    then err (invalid "offset must be at most %d; narrow the listing instead")
    else ok page
