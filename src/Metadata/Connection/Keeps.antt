-- ===== src/Metadata/Connection/Keeps.antt =====
-- Properties of the rows, working and durable, that an action keeps, whether it returns or raises: one rule for
-- each way to build an action.
use vstack.Prelude.{
  ℕ, Bool, true, false, Option, none, some, List, [], ◌∷◌, ◌≡◌, refl, if◌then◌else◌,
}
use mathlib.Core.Path.{subst}
use vstack.Metadata.Tables.{Tables}
use vstack.Metadata.Connection.{
  Conn, Error, Result, ok, raised, M, pure, raise, query, follow, ◌>>=◌, Statement, written,
  run_statement, commit_now, next_fault, later_faults, execute, commit, for_each, or_else, checked,
}

-- The property holds of the working and of the durable rows.
abbrev pub Holds : (Tables → Type 0) → Conn → Type 0
Holds P c = P c.working × P c.durable

pub record Keeps {ℓ} {A : Type ℓ} (P : Tables → Type 0) (m : M A) : Type ℓ where
  pub at : (c : Conn) → Holds P c → Holds P (m c).1
  pub live : (c : Conn) → P c.working → P (m c).1.working

-- The same of a method that raises nothing.
pub record Maintains {ℓ} {A : Type ℓ} (P : Tables → Type 0) (f : Conn → A × Conn) : Type ℓ where
  pub always : (c : Conn) → Holds P c → Holds P (f c).1

-- A statement keeps the property where its constraints hold.
pub record Preserves (P : Tables → Type 0) (s : Statement) : Type 0 where
  pub rows : (now : ℕ) (t t' : Tables) → s now t ≡ some t' → P t → P t'

some_inj : (a b : Tables) → some a ≡ some b → a ≡ b
some_inj a b e = cc

-- A statement that no constraint stops.
pub Preserves-total :
    {P : Tables → Type 0} (f : ℕ → Tables → Tables)
    → ((now : ℕ) (t : Tables) → P t → P (f now t))
    → Preserves P (λ now t. some (f now t))
Preserves-total {P} f k = record {
  rows = λ now t t' e h. subst P (some_inj (f now t) t' e) (k now t h);
}

none≢some : (t : Tables) → none ≡ some t → ⊥
none≢some t e = cc

checked-eq-some {ℓ} :
    {R : Type ℓ} (P : Tables → Type 0) (o : Option R) (put : R → Tables) (t' : Tables)
    → ((rows : R) → o ≡ some rows → P (put rows))
    → checked o put ≡ some t'
    → P t'
checked-eq-some P none put t' k e = absurd (none≢some t' e)
checked-eq-some P (some rows) put t' k e = subst P (some_inj (put rows) t' e) (k rows refl)

pub Preserves-checked {ℓ} :
    {R : Type ℓ} {P : Tables → Type 0} (g : ℕ → Tables → Option R) (put : ℕ → Tables → R → Tables)
    → ((now : ℕ) (t : Tables) (rows : R) → g now t ≡ some rows → P t → P (put now t rows))
    → Preserves P (λ now t. checked (g now t) (put now t))
Preserves-checked {P = P} g put k = record {
  rows = λ now t t' e h. checked-eq-some P (g now t) (put now t) t' (λ rows q. k now t rows q h) e;
}

module _ {ℓ} {A : Type ℓ} {P : Tables → Type 0} where
  pub Keeps-pure : (a : A) → Keeps P (pure a)
  unfolding pure
  Keeps-pure a = record { at = λ c h. h; live = λ c h. h }

  pub Keeps-raise : (e : Error) → Keeps P (raise {A = A} e)
  unfolding raise
  Keeps-raise e = record { at = λ c h. h; live = λ c h. h }

  pub Keeps-query : (f : Tables → A) → Keeps P (query f)
  unfolding query
  Keeps-query f = record { at = λ c h. h; live = λ c h. h }

  pub Keeps-if : (b : Bool) (m n : M A) → Keeps P m → Keeps P n → Keeps P (if b then m else n)
  Keeps-if true m n km kn = km
  Keeps-if false m n km kn = kn

module _ {ℓ} {A B : Type ℓ} {P : Tables → Type 0} where
  follow-Keeps :
      (r : Result A) (f : A → M B) (c : Conn)
      → ((a : A) → Keeps P (f a))
      → Holds P c
      → Holds P (follow r f c).1
  unfolding follow
  follow-Keeps (ok a) f c kf h = (kf a).at c h
  follow-Keeps (raised e) f c kf h = h

  follow-live :
      (r : Result A) (f : A → M B) (c : Conn)
      → ((a : A) → Keeps P (f a))
      → P c.working
      → P (follow r f c).1.working
  unfolding follow
  follow-live (ok a) f c kf h = (kf a).live c h
  follow-live (raised e) f c kf h = h

  pub Keeps-bind :
      (m : M A) (f : A → M B) → Keeps P m → ((a : A) → Keeps P (f a)) → Keeps P (m >>= f)
  unfolding ◌>>=◌
  Keeps-bind m f km kf = record {
    at = λ c h. follow-Keeps (m c).0 f (m c).1 kf (km.at c h);
    live = λ c h. follow-live (m c).0 f (m c).1 kf (km.live c h);
  }

commit_now-keeps :
    (P : Tables → Type 0) (b : Bool) (c : Conn) → Holds P c → Holds P (commit_now b c).1
unfolding commit_now
commit_now-keeps P true c h = h
commit_now-keeps P false c h = (h.0, h.0)

commit_now-live :
    (P : Tables → Type 0) (b : Bool) (c : Conn) → P c.working → P (commit_now b c).1.working
unfolding commit_now
commit_now-live P true c h = h
commit_now-live P false c h = h

module _ {P : Tables → Type 0} where
  written-keeps :
      (o : Option Tables) (c : Conn)
      → ((t : Tables) → o ≡ some t → P t)
      → Holds P c
      → Holds P (written o c).1
  unfolding written
  written-keeps none c k h = h
  written-keeps (some t) c k h = (k t refl, h.1)

  run_statement-keeps :
      (b : Bool) (s : Statement) (c : Conn)
      → Preserves P s
      → Holds P c
      → Holds P (run_statement b s c).1
  unfolding run_statement
  run_statement-keeps true s c k h = h
  run_statement-keeps false s c k h =
      written-keeps (s c.now c.working) c (λ t e. k.rows c.now c.working t e h.0) h

  written-live :
      (o : Option Tables) (c : Conn)
      → ((t : Tables) → o ≡ some t → P t)
      → P c.working
      → P (written o c).1.working
  unfolding written
  written-live none c k h = h
  written-live (some t) c k h = k t refl

  run_statement-live :
      (b : Bool) (s : Statement) (c : Conn)
      → Preserves P s
      → P c.working
      → P (run_statement b s c).1.working
  unfolding run_statement
  run_statement-live true s c k h = h
  run_statement-live false s c k h =
      written-live (s c.now c.working) c (λ t e. k.rows c.now c.working t e h) h

  pub Keeps-execute : (s : Statement) → Preserves P s → Keeps P (execute s)
  unfolding execute
  Keeps-execute s k = record {
    at = λ c h.
        run_statement-keeps (next_fault c.faults) s (record c { faults = later_faults c.faults }) k
          h;
    live = λ c h.
        run_statement-live (next_fault c.faults) s (record c { faults = later_faults c.faults }) k
          h;
  }

  pub Keeps-commit : Keeps P commit
  unfolding commit
  Keeps-commit = record {
    at = λ c h.
        commit_now-keeps P (next_fault c.faults) (record c { faults = later_faults c.faults }) h;
    live = λ c h.
        commit_now-live P (next_fault c.faults) (record c { faults = later_faults c.faults }) h;
  }

  pub Keeps-for_each {ℓ} :
      {A : Type ℓ} (body : A → M (Unit {0})) (xs : List A)
      → ((x : A) → Keeps P (body x))
      → Keeps P (for_each body xs)
  unfolding for_each
  Keeps-for_each body [] k = Keeps-pure tt
  Keeps-for_each body (x ∷ xs) k = Keeps-bind (body x) _ (k x) (λ _. Keeps-for_each body xs k)

  pub Maintains-or_else {ℓ} :
      {A : Type ℓ} (fallback : A) (m : M A) → Keeps P m → Maintains P (or_else fallback m)
  unfolding or_else
  Maintains-or_else fallback m k = record { always = k.at }

pub ruleset keeps_rules = (
  Keeps-pure, Keeps-raise, Keeps-query, Keeps-if, Keeps-bind, Keeps-execute, Keeps-commit,
  Keeps-for_each, Maintains-or_else,
)
