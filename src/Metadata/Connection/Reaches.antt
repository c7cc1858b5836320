-- ===== src/Metadata/Connection/Reaches.antt =====
-- What holds of the working rows once an action has returned.
use vstack.Prelude.{ℕ, Bool, true, false, Option, none, some, ◌≡◌, refl}
use vstack.Metadata.Tables.{Tables}
use vstack.Metadata.Connection.{
  Conn, Error, Result, ok, raised, M, follow, ◌>>=◌, Statement, written, run_statement, commit_now,
  next_fault, later_faults, execute, commit,
}
use vstack.Metadata.Connection.Keeps.{Keeps}

raised≢ok {ℓ} : {B : Type ℓ} (x : Error) (b : B) → ◌≡◌ {A = Result B} (raised x) (ok b) → ⊥
raised≢ok x b e = cc

pub record Reaches {ℓ} {A : Type ℓ} (P : Tables → Type 0) (m : M A) : Type ℓ where
  pub return : (c : Conn) (a : A) → (m c).0 ≡ ok a → P (m c).1.working

module _ {ℓ} {A B : Type ℓ} {P : Tables → Type 0} where
  follow-then :
      (r : Result A) (f : A → M B) (c : Conn) (b : B)
      → ((a : A) → r ≡ ok a → P c.working)
      → ((a : A) → Keeps P (f a))
      → (follow r f c).0 ≡ ok b
      → P (follow r f c).1.working
  unfolding follow
  follow-then (ok a) f c b h kf e = (kf a).live c (h a refl)
  follow-then (raised x) f c b h kf e = absurd (raised≢ok x b e)

  -- Reached by the first part, and kept by the rest.
  pub Reaches-then :
      (m : M A) (f : A → M B) → Reaches P m → ((a : A) → Keeps P (f a)) → Reaches P (m >>= f)
  unfolding ◌>>=◌
  Reaches-then m f rm kf = record {
    return = λ c b e. follow-then (m c).0 f (m c).1 b (λ a q. rm.return c a q) kf e;
  }

  follow-later :
      (r : Result A) (f : A → M B) (c : Conn) (b : B)
      → ((a : A) → Reaches P (f a))
      → (follow r f c).0 ≡ ok b
      → P (follow r f c).1.working
  unfolding follow
  follow-later (ok a) f c b rf e = (rf a).return c b e
  follow-later (raised x) f c b rf e = absurd (raised≢ok x b e)

  -- Reached by the rest.
  pub Reaches-later : (m : M A) (f : A → M B) → ((a : A) → Reaches P (f a)) → Reaches P (m >>= f)
  unfolding ◌>>=◌
  Reaches-later m f rf = record { return = λ c b e. follow-later (m c).0 f (m c).1 b rf e }

module _ {P : Tables → Type 0} where
  written-reaches :
      (o : Option Tables) (c : Conn) (u : Unit {0})
      → ((t : Tables) → o ≡ some t → P t)
      → (written o c).0 ≡ ok u
      → P (written o c).1.working
  unfolding written
  written-reaches none c u k e = absurd (raised≢ok _ u e)
  written-reaches (some t) c u k e = k t refl

  run_statement-reaches :
      (b : Bool) (s : Statement) (c : Conn) (u : Unit {0})
      → ((now : ℕ) (t t' : Tables) → s now t ≡ some t' → P t')
      → (run_statement b s c).0 ≡ ok u
      → P (run_statement b s c).1.working
  unfolding run_statement
  run_statement-reaches true s c u k e = absurd (raised≢ok _ u e)
  run_statement-reaches false s c u k e =
      written-reaches (s c.now c.working) c u (λ t q. k c.now c.working t q) e

  pub Reaches-execute :
      (s : Statement)
      → ((now : ℕ) (t t' : Tables) → s now t ≡ some t' → P t')
      → Reaches P (execute s)
  unfolding execute
  Reaches-execute s k = record {
    return = λ c u e.
        run_statement-reaches (next_fault c.faults) s (record c { faults = later_faults c.faults })
          u k e;
  }

commit_now_lem :
    (b : Bool) (c : Conn) (u : Unit {0})
    → (commit_now b c).0 ≡ ok u
    → (commit_now b c).1.durable ≡ (commit_now b c).1.working
unfolding commit_now
commit_now_lem true c u e = absurd (raised≢ok _ u e)
commit_now_lem false c u e = refl

-- A commit that returns has made the working rows durable.
pub commit_lem :
    (c : Conn) (u : Unit {0}) → (commit c).0 ≡ ok u → (commit c).1.durable ≡ (commit c).1.working
unfolding commit
commit_lem c u e =
    commit_now_lem (next_fault c.faults) (record c { faults = later_faults c.faults }) u e

-- The action ends with a commit: once it has returned, the working rows are the durable ones.
pub record Commits {ℓ} {A : Type ℓ} (m : M A) : Type ℓ where
  pub saved : (c : Conn) (a : A) → (m c).0 ≡ ok a → (m c).1.durable ≡ (m c).1.working

pub Commits-commit : Commits commit
Commits-commit = record { saved = commit_lem }

module _ {ℓ} {A B : Type ℓ} where
  follow-Commits :
      (r : Result A) (f : A → M B) (c : Conn) (b : B)
      → ((a : A) → Commits (f a))
      → (follow r f c).0 ≡ ok b
      → (follow r f c).1.durable ≡ (follow r f c).1.working
  unfolding follow
  follow-Commits (ok a) f c b k e = (k a).saved c b e
  follow-Commits (raised x) f c b k e = absurd (raised≢ok x b e)

  pub Commits-bind : (m : M A) (f : A → M B) → ((a : A) → Commits (f a)) → Commits (m >>= f)
  unfolding ◌>>=◌
  Commits-bind m f k = record { saved = λ c b e. follow-Commits (m c).0 f (m c).1 b k e }

pub ruleset commits_rules = (Commits-commit, Commits-bind)

pub some_inj {ℓ} : {A : Type ℓ} (t t' : A) → some t ≡ some t' → t ≡ t'
some_inj t t' e = cc
