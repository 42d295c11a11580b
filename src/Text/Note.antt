-- ===== src/Text/Note.antt =====
-- The note of a review, which the services write only where one was sent.
use attendance_system.Prelude.{ℕ, Option, some, List, [], ◌∷◌}

-- What is held after a review: what was sent, or what stood where nothing was.
pub data NoteAfter (held : Option (List ℕ)) : List ℕ → Option (List ℕ) → Type 0 where
  nothing_sent : NoteAfter held [] held
  sent : {c : ℕ} {more : List ℕ} → NoteAfter held (c ∷ more) (some (c ∷ more))
