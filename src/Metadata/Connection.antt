-- ===== src/Metadata/Connection.antt =====
-- The shared connection of metadata-service/database.py. A statement changes the `working` rows,
-- which every query on the connection sees; commit() makes them the `durable` ones, which survive
-- a restart. `faults` is the environment: an entry for each statement or commit to come says
-- whether it raises; where the list ends, nothing raises.
pub mod Keeps
pub mod Reaches
pub mod Saves
use vstack.Prelude.{ℕ, Bool, true, false, Option, none, some, List, [], ◌∷◌, if◌then◌else◌}
use vstack.Metadata.Tables.{Tables}

pub record Conn : Type 0 where
  pub working : Tables
  pub durable : Tables
  pub faults : List Bool
  pub now : ℕ

pub data Error : Type 0 where
  operational_error integrity_error key_error value_error quorum_not_reached ballot_conflict : Error

pub data Result {ℓ} (A : Type ℓ) : Type ℓ where
  ok : A → Result A
  raised : Error → Result A

abbrev pub M {ℓ} : Type ℓ → Type ℓ
M A = Conn → Result A × Conn

module _ {ℓ} {A : Type ℓ} where
  unfoldable pub pure : A → M A
  pure a c = (ok a, c)

  unfoldable pub raise : Error → M A
  raise e c = (raised e, c)

  unfoldable pub query : (Tables → A) → M A
  query f c = (ok (f c.working), c)

infixl 10 ◌>>=◌ ◌>>◌
module _ {ℓ} {A B : Type ℓ} where
  unfoldable pub follow : Result A → (A → M B) → M B
  follow (ok a) f c = f a c
  follow (raised e) f c = (raised e, c)

unfoldable pub ◌>>=◌ {ℓ} : {A B : Type ℓ} → M A → (A → M B) → M B
unfolding follow
◌>>=◌ m f c = let (r, c') = m c in follow r f c'

abbrev pub ◌>>◌ {ℓ} : {A B : Type ℓ} → M A → M B → M B
m >> n = m >>= λ _. n

-- A statement: what it makes of the rows at the database's clock, or a constraint that it breaks.
abbrev pub Statement : Type 0
Statement = ℕ → Tables → Option Tables

unfoldable pub written : Option Tables → Conn → Result (Unit {0}) × Conn
written none c = (raised integrity_error, c)
written (some t) c = (ok tt, record c { working = t })

unfoldable pub run_statement : Bool → Statement → Conn → Result (Unit {0}) × Conn
unfolding written
run_statement true s c = (raised operational_error, c)
run_statement false s c = written (s c.now c.working) c

unfoldable pub commit_now : Bool → Conn → Result (Unit {0}) × Conn
commit_now true c = (raised operational_error, c)
commit_now false c = (ok tt, record c { durable = c.working })

unfoldable pub next_fault : List Bool → Bool
next_fault [] = false
next_fault (b ∷ faults) = b

unfoldable pub later_faults : List Bool → List Bool
later_faults [] = []
later_faults (b ∷ faults) = faults

-- conn.execute(...)
unfoldable pub execute : Statement → M (Unit {0})
unfolding run_statement next_fault later_faults
execute s c = run_statement (next_fault c.faults) s (record c { faults = later_faults c.faults })

-- conn.commit()
unfoldable pub commit : M (Unit {0})
unfolding commit_now next_fault later_faults
commit c = commit_now (next_fault c.faults) (record c { faults = later_faults c.faults })

-- `for x in xs: body(x)`
unfoldable pub for_each {ℓ} : {A : Type ℓ} → (A → M (Unit {0})) → List A → M (Unit {0})
unfolding pure ◌>>=◌
for_each body [] = pure tt
for_each body (x ∷ xs) = body x >> for_each body xs

-- `try: ... except Exception: return fallback`
unfoldable pub settle {ℓ} : {A : Type ℓ} → A → Result A → A
settle fallback (ok a) = a
settle fallback (raised e) = fallback

unfoldable pub or_else {ℓ} : {A : Type ℓ} → A → M A → Conn → A × Conn
unfolding settle
or_else fallback m c = let (r, c') = m c in (settle fallback r, c')

-- An insertion into one table, which a constraint may stop.
abbrev pub checked {ℓ} : {R : Type ℓ} → Option R → (R → Tables) → Option Tables
checked none put = none
checked (some rows) put = some (put rows)
