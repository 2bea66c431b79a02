-- ===== src/Inspect.antt =====
-- The read-only view of the live system, `SystemInspector` of src/inspect.rs. The production
-- inspector reads the system's databases, so the view is a record of functions that callers supply.
use census.Prelude.{ℕ, List, Option, Text}

pub record GroupFacts : Type 0 where
  pub gid : ℕ

-- The two lookups that the group plan makes.
pub record GroupInspector : Type 0 where
  pub group : Text → Option GroupFacts
  pub group_name_by_gid : ℕ → Option Text

-- The lookups that an apply run makes, on the system as it is at the time.
pub record SystemInspector (P : Type 0) : Type 0 where
  pub group : P → Text → Option GroupFacts
  pub group_name_by_gid : P → ℕ → Option Text
  pub group_members : P → Text → List Text
