-- ===== src/Worker/Quota.antt =====
-- The quota of a company is charged once for each job that is finished, and never otherwise.
use case_fullstack_senior.Prelude.{
  ℕ, ◌≡◌, refl, Option, none, some, List, [], ◌∷◌, arith, ◌&&◌, inl, inr, ◌==◌, if◌then◌else◌,
}
use case_fullstack_senior.Prelude.Int.{ℤ, pos, ◌-ℤ◌}
use case_fullstack_senior.Db.Schema.{is_done, Company, Db, is_cancelled}
use case_fullstack_senior.Db.Query.{find_company, charge, result_count}
use case_fullstack_senior.Worker.{Claim, finalize, settle_result, finish_row}
use case_fullstack_senior.Worker.Cases.{finalize-cases, rewritten}
use case_fullstack_senior.Invariant.{IsValid, IsBacked, RowValid, is_exhausted}

-- What is left of a company's quota, if there is the company.
abbrev pub quota : ℕ → List Company → Option ℤ
quota d cs = elim (find_company d cs) [ none ↦ none | some co ↦ some co.job_quota ]

abbrev pub less_one : Option ℤ → Option ℤ
less_one none = none
less_one (some q) = some (q -ℤ pos 1)

quota-charge :
    (d c : ℕ) (cs : List Company)
    → quota d (charge c cs) ≡ (if c == d then less_one (quota d cs) else quota d cs)
unfolding find_company charge
quota-charge d c [] = ground arith
quota-charge d c (co ∷ cs) = ground (arith, quota-charge d c cs)

-- A result that is new is charged.
companies-settle_result :
    (c : Claim) (db : Db)
    → result_count c.id db.job_results ≡ 0
    → (settle_result c db).companies ≡ charge c.company_id db.companies
unfolding settle_result
companies-settle_result c db new = ground arith

-- In valid tables a finalisation that ends `done` takes one from the quota of the claim's company
-- and leaves every other company's quota; one that does not end `done` leaves every quota.
pub quota-finalize :
    (c : Claim) (db : Db) (d : ℕ)
    → IsValid db
    → quota d (finalize c db).1.companies ≡ (
        if is_done (finalize c db).0 && c.company_id == d
        then less_one (quota d db.companies)
        else quota d db.companies)
quota-finalize c db d h = elim (finalize-cases c db) [
  | inl lost ↦ rw lost refl
  | inr (j, found, held, made) ↦
      let at : RowValid db c.id (some j) = rw found at (h.rows c.id) in
      let b : IsBacked db c.id (is_done j.status) (is_cancelled j.status) (is_exhausted j) = at.1 in
      let new : result_count c.id db.job_results ≡ 0 = ground arith in
      rw made (
        rw (companies-settle_result c (rewritten c.id (finish_row db.now j) db) new)
          (quota-charge d c.company_id db.companies))
]
