-- ===== src/Invariant/Rewrite.antt =====
-- The invariant when the worker rewrites one row, and then the tables behind it.
use case_fullstack_senior.Prelude.{ℕ, ◌≡◌, refl, ◌∙◌, some, arith}
use case_fullstack_senior.Db.Schema.{Job, Db, is_done, is_cancelled}
use case_fullstack_senior.Db.Query.{find, replace}
use case_fullstack_senior.Db.Laws.{find-id, find-replace}
use case_fullstack_senior.Db.Local.{Local, Local-replace, Local-refl, Local-trans}
use case_fullstack_senior.Worker.Cases.{rewritten}
use case_fullstack_senior.Invariant.{IsSound, RowValid, IsValid, is_exhausted}
use case_fullstack_senior.Invariant.Keys.{SameIdentity, IsKeyed-replace}
use case_fullstack_senior.Invariant.Rows.{AllRows-of_Local}

-- A row is rewritten, and then the other tables gain what its new status asks for.
module _ (k : ℕ) (i j : Job) (db db' : Db) (found : find k db.jobs ≡ some i)
    (same : SameIdentity i j) (rest : Local k (rewritten k j db) db')
    (jobs_kept : db'.jobs ≡ replace k j db.jobs)
    (next_kept : db'.next_job_id ≡ db.next_job_id) where
  id_kept : j.id ≡ k
  id_kept = same.id ∙ find-id k db.jobs found

  pub rewritten-IsValid : RowValid db' k (some j) → IsValid db → IsValid db'
  rewritten-IsValid at h = record {
    keyed = rw (jobs_kept, next_kept) (IsKeyed-replace k j db.jobs found same h.keyed);
    rows =
        AllRows-of_Local (Local-trans (Local-replace k db j id_kept) rest) h.rows
          (rw (jobs_kept, find-replace k k j db.jobs id_kept) (ground arith));
  }

-- Only the row changes.
pub row-IsValid :
    (k : ℕ) (i j : Job) (db : Db)
    → find k db.jobs ≡ some i
    → SameIdentity i j
    → IsSound j
    → is_done j.status ≡ is_done i.status
    → is_cancelled j.status ≡ is_cancelled i.status
    → is_exhausted j ≡ is_exhausted i
    → IsValid db
    → IsValid (rewritten k j db)
row-IsValid k i j db found same sound d n x h =
    let b = (rw found at (h.rows k)).1 in
    rewritten-IsValid k i j db (rewritten k j db) found same (Local-refl k _) refl refl
      (sound, rw (d, n, x) (ground arith)) h
