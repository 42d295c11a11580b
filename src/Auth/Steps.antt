-- ===== src/Auth/Steps.antt =====
-- The calls of auth/service.go that write sessions, as steps of the database.
use attendance_system.Prelude.{◌≡◌, ◌≢◌}
use attendance_system.Text.{Text}
use attendance_system.Auth.Attempts.{Redis}
use attendance_system.Auth.Service.{Guard, login, refresh, logout}
use attendance_system.Db.{Db}

-- The calls of auth/service.go that write sessions, by a server that draws no token whose hash is
-- `hash` and that hashes by one function.
module _ (hash_token : Text → Text) (hash : Text) where
  pub data Step (db db' : Db) : Type 0 where
    logged_in :
        (guard : Guard) (redis : Redis) (email password ip : Text)
        → guard.hash_token ≡ hash_token
        → hash_token guard.drawn ≢ hash
        → (login guard db redis email password ip).1 ≡ db'
        → Step db db'
    refreshed :
        (guard : Guard) (token : Text)
        → guard.hash_token ≡ hash_token
        → hash_token guard.drawn ≢ hash
        → (refresh guard db token).1 ≡ db'
        → Step db db'
    logged_out : (guard : Guard) (token : Text) → logout guard db token ≡ db' → Step db db'

  pub data Reach (db : Db) : Db → Type 0 where
    here : Reach db db
    next : {mid db' : Db} → Reach db mid → Step mid db' → Reach db db'
