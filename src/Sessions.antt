-- ===== src/Sessions.antt =====
-- The live-session set of src/sessions.rs.
use census.Prelude.{◌==◌, ◌||◌, str_eq, any, Bool, ◌∷◌, ℕ, [], Text, List}

-- The two hash sets are lists, of which only membership is asked.
pub record LiveSessions : Type 0 where
  pub names : List Text
  pub uids : List ℕ

abbrev pub no_sessions : LiveSessions
no_sessions = record { names = []; uids = [] }

-- `LiveSessions::matches`
unfoldable pub matches : LiveSessions → Text → ℕ → Bool
matches live name uid = any (λ n. str_eq n name) live.names || any (λ u. u == uid) live.uids

pub record SessionEntry : Type 0 where
  pub pam_user : Text
  pub uid : ℕ

-- The loop of `live` over the parsed entries.
unfoldable pub collect_sessions : List SessionEntry → LiveSessions → LiveSessions
collect_sessions [] live = live
collect_sessions (e ∷ entries) live =
    collect_sessions entries (record { names = e.pam_user ∷ live.names; uids = e.uid ∷ live.uids })
