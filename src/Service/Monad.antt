-- ===== src/Service/Monad.antt =====
-- A method of the service reads and changes the tables and may raise an error of
-- api/modules/jobs/errors.py. What was written before a raise is still in the transaction.
use case_fullstack_senior.Prelude.{ℕ, String}
use case_fullstack_senior.Db.Schema.{Status, Db}

-- `missing_row` is the RuntimeError of `_require_row`.
pub data JobsError : Type 0 where
  job_not_found result_not_found company_unknown : ℕ → JobsError
  concurrency_limit : ℕ → ℕ → JobsError
  idempotency_key_conflict : String → JobsError
  invalid_job_state : Status → JobsError
  retry_limit : ℕ → ℕ → JobsError
  missing_row : JobsError

pub data Result (A : Type 0) : Type 0 where
  ok : A → Result A
  err : JobsError → Result A

abbrev pub Action : Type 0 → Type 0
Action A = Db → Result A × Db

module _ {A : Type 0} where
  abbrev pub pure : A → Action A
  pure a db = (ok a, db)

  abbrev pub raise : JobsError → Action A
  raise e db = (err e, db)

  abbrev pub gets : (Db → A) → Action A
  gets f db = (ok (f db), db)

abbrev pub modify : (Db → Db) → Action (Unit {0})
modify f db = (ok tt, f db)

infixl 5 ◌>>=◌ ◌>>◌
abbrev pub ◌>>=◌ : {A B : Type 0} → Action A → (A → Action B) → Action B
◌>>=◌ m f db = let (r, db') = m db in elim r [ ok a ↦ f a db' | err e ↦ (err e, db') ]

abbrev pub ◌>>◌ : {A B : Type 0} → Action A → Action B → Action B
m >> k = m >>= λ _. k
