-- ===== src/Upstream/Advances.antt =====
-- Computations that change the tables by calls of `Repository` only.
use wikifame.Base.{◌≡◌, refl}
use wikifame.Upstream.{World, ask, store}
use wikifame.Repository.Steps.{Step, Reach, here, next, Reach_trans}
use wikifame.Models.{Database}
use wikifame.Errors.{Result, ok, err, Exec, and_then, ◌>>=◌}

module _ {S A : Type 0} where
  -- However the computation ends, the tables have changed by calls of writing methods.
  abbrev pub Advances : Exec (World S) A → Type 0
  Advances m = (w : World S) → Reach w.db (m w).1.db

  pub ask-Advances : (m : Exec S A) → Advances (ask m)
  ask-Advances m w = here

pub store-Advances :
    {S : Type 0} (f : Database → Database)
    → ((db : Database) → Step db (f db))
    → Advances {S = S} (store f)
store-Advances f step w = next here (step w.db)

module _ {S A B : Type 0} where
  pub >>=-Advances :
      (m : Exec (World S) A) (f : A → Exec (World S) B)
      → Advances m
      → ((w : World S) (a : A) → (m w).0 ≡ ok a → Advances (f a))
      → Advances (m >>= f)
  >>=-Advances m f first rest w = go (m w).0 refl
    where
      go : (r : Result A) → (m w).0 ≡ r → Reach w.db (and_then r f (m w).1).1.db
      go (ok a) e = Reach_trans (first w) (rest w a e (m w).1)
      go (err x) e = first w
