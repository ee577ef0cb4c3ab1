-- ===== src/Migrate/Returns.antt =====
-- When a migration comes to its end.
use wikifame.Base.{◌≡◌, List}
use wikifame.Errors.{Result, ok}
use wikifame.Migrate.{Tables}

-- A result that is a value.
abbrev pub Returned : {A : Type 0} → Result A → Type 0
Returned {A} r = (a : A) × (r ≡ ok a)
