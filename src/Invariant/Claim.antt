-- ===== src/Invariant/Claim.antt =====
-- Claims, renewals and acknowledgements keep the invariant.
use case_fullstack_senior.Prelude.{Option-cases, ◌≡◌, ℕ, String, Bool, refl, some, inl, inr, arith}
use case_fullstack_senior.Db.Schema.{Db}
use case_fullstack_senior.Db.Query.{find}
use case_fullstack_senior.Worker.{
  acknowledge_cancellation, Claim, claim_next, claim_row, renew_lease,
}
use case_fullstack_senior.Worker.Cases.{claim_next-cases, renew_lease-cases}
use case_fullstack_senior.Invariant.{IsSound, IsValid}
use case_fullstack_senior.Invariant.Rewrite.{row-IsValid}

-- A claim keeps the invariant, whatever rows other transactions hold.
pub claim_next-IsValid :
    (worker : String) (locked : ℕ → Bool) (db : Db)
    → IsValid db
    → IsValid (claim_next worker locked db).1
claim_next-IsValid worker locked db h = elim (claim_next-cases worker locked db h.keyed.unique) [
  | inl (idle, _) ↦ rw idle h
  | inr (j, found, _, ready, e) ↦
      let sound : IsSound j = (rw found at (h.rows j.id)).0 in
      rw e (
        row-IsValid j.id j (claim_row db.now worker j) db found
          (record { id = refl; company_id = refl; idempotency_key = refl }) (ground arith)
          (ground arith) (ground arith) (ground arith) h)
]

-- A renewed lease keeps the invariant.
pub renew_lease-IsValid : (c : Claim) (db : Db) → IsValid db → IsValid (renew_lease c db).1
renew_lease-IsValid c db h = elim (renew_lease-cases c db) [
  | inl lost ↦ rw lost h
  | inr (j, found, held, e) ↦
      let sound : IsSound j = (rw found at (h.rows c.id)).0 in
      rw e (
        row-IsValid c.id j (record j { locked_at = some db.now }) db found
          (record { id = refl; company_id = refl; idempotency_key = refl }) (ground arith) refl refl
          refl h)
]

-- In valid tables an acknowledgement of a cancellation changes nothing: a cancelled row has no
-- worker, so that its UPDATE finds no row.
pub acknowledge_cancellation-idle :
    (c : Claim) (db : Db) → IsValid db → (acknowledge_cancellation c db).1 ≡ db
unfolding acknowledge_cancellation
acknowledge_cancellation-idle c db h = elim (Option-cases (find c.id db.jobs)) [
  | inl gone ↦ ground arith
  | inr (j, found) ↦ let sound : IsSound j = (rw found at (h.rows c.id)).0 in ground arith
]
