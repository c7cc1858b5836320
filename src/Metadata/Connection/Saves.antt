-- ===== src/Metadata/Connection/Saves.antt =====
-- A method that runs one statement, commits and returns, inside a `try` with a fallback.
use vstack.Prelude.{Bool, true, false, some, ◌≡◌, Bool-cases, inl, inr, arith}
use vstack.Metadata.Tables.{Tables}
use vstack.Metadata.Connection.{
  Conn, M, follow, ◌>>=◌, ◌>>◌, Statement, written, run_statement, commit_now, next_fault,
  later_faults, execute, commit, or_else, settle, pure,
}

-- The action of the methods that save one change.
abbrev pub save : Statement → Bool → M Bool
save s answer = execute s >> (commit >> pure answer)

-- If the answer is True, the statement has run and its rows are durable.
pub save_lem :
    (s : Statement) (answer : Bool) (c : Conn) (t : Tables)
    → s c.now c.working ≡ some t
    → (or_else false (save s answer) c).0 ≡ true
    → ((or_else false (save s answer) c).1.working ≡ t)
      × ((or_else false (save s answer) c).1.durable ≡ t)
      × (answer ≡ true)
unfolding execute commit or_else settle pure ◌>>=◌ follow run_statement commit_now written
save_lem s answer c t e h = elim (Bool-cases (next_fault c.faults)) [
  | inl bad ↦ ground (arith, bad, e)
  | inr good ↦ ground (arith, good, e, Bool-cases (next_fault (later_faults c.faults)))
]

-- Where nothing raises, the answer is the one that the method means to give.
pub save_succeeds :
    (s : Statement) (answer : Bool) (c : Conn) (t : Tables)
    → s c.now c.working ≡ some t
    → next_fault c.faults ≡ false
    → next_fault (later_faults c.faults) ≡ false
    → (or_else false (save s answer) c).0 ≡ answer
unfolding execute commit or_else settle pure ◌>>=◌ follow run_statement commit_now written
save_succeeds s answer c t e f₁ f₂ = ground (arith, e, f₁, f₂)

-- A method that only commits changes no working row, and saves them if the answer is True.
pub commit_only_lem :
    (answer : Bool) (c : Conn)
    → (or_else false (commit >> pure answer) c).0 ≡ true
    → ((or_else false (commit >> pure answer) c).1.working ≡ c.working)
      × ((or_else false (commit >> pure answer) c).1.durable ≡ c.working)
unfolding commit or_else settle pure ◌>>=◌ follow commit_now
commit_only_lem answer c h = ground (arith, Bool-cases (next_fault c.faults))
