-- ===== src/Worker/Queue.antt =====
-- The order of the queue: which job a claim takes, when it takes none, and how a retry waits.
use mathlib.Core.Path.{subst}
use case_fullstack_senior.Prelude.{
  ap, sym, ℕ, ◌+◌, ◌≤◌, ◌<◌, String, Bool, true, false, ◌≡◌, Option, some, arith, not, ◌&&◌, leb,
  inl, inr,
}
use case_fullstack_senior.Db.Schema.{Job, Db}
use case_fullstack_senior.Db.Query.{find}
use case_fullstack_senior.Db.Laws.{find-id}
use case_fullstack_senior.Service.{retry_row, backoff}
use case_fullstack_senior.Worker.{
  Claim, claimed, idle, is_ready, next_ready, claim_next, claim_of, claim_row,
}
use case_fullstack_senior.Worker.Cases.{claim_next-cases}
use case_fullstack_senior.Worker.Order.{first_by_id-none, first_by_id-least}
use case_fullstack_senior.Invariant.{IsUnique}

module _ (worker : String) (locked : ℕ → Bool) (db : Db) (u : IsUnique db.jobs) where
  abbrev is_free : Job → Bool
  is_free j = is_ready db.now j && not (locked j.id)

  is_free-of :
      (k : ℕ) (i : Job)
      → find k db.jobs ≡ some i
      → is_ready db.now i ≡ true
      → locked k ≡ false
      → is_free i ≡ true
  is_free-of k i f r free =
      let open' : locked i.id ≡ false =
        subst (λ n. locked n ≡ false) (sym (find-id k db.jobs f)) free in
      ground arith

  -- In a table whose keys are unique, a claim that takes a job takes one that is ready and not
  -- locked by another transaction, returns the row as the UPDATE left it, and no ready and
  -- unlocked job has a smaller key.
  pub claim_next-first :
      {c : Claim}
      → (claim_next worker locked db).0 ≡ claimed c
      → (j : Job) × (find c.id db.jobs ≡ some j)
        × (is_ready db.now j ≡ true)
        × (locked c.id ≡ false)
        × (c ≡ claim_of worker (claim_row db.now worker j))
        × ((k : ℕ) (i : Job)
            → find k db.jobs ≡ some i
            → is_ready db.now i ≡ true
            → locked k ≡ false
            → c.id ≤ k)
  unfolding next_ready
  claim_next-first {c} e = elim (claim_next-cases worker locked db u) [
    | inl (nothing, _) ↦ absurd (ground arith)
    | inr (j, found, first, ready, made) ↦
        let mine : claim_of worker (claim_row db.now worker j) ≡ c = ground arith in
        let key : j.id ≡ c.id = ap (λ (x : Claim). x.id) mine in
        (
          j,
          subst (λ k. find k db.jobs ≡ some j) key found,
          ground arith,
          subst (λ k. locked k ≡ false) key (ground arith),
          sym mine,
          λ k i f r free.
              subst (λ n. n ≤ k) key
                (first_by_id-least is_free db.jobs k first f (is_free-of k i f r free)),
        )
  ]

  -- In a table whose keys are unique, if a claim takes nothing, then every ready job is locked by
  -- another transaction.
  pub claim_next-idle :
      (claim_next worker locked db).0 ≡ idle
      → (k : ℕ) (i : Job) → find k db.jobs ≡ some i
      → is_ready db.now i ≡ true
      → locked k ≡ true
  unfolding next_ready
  claim_next-idle e k i found ready = elim (claim_next-cases worker locked db u) [
    | inr (j, _, _, _, made) ↦ absurd (ground arith)
    | inl (_, nothing) ↦
        let busy : is_free i ≡ false = first_by_id-none is_free db.jobs k nothing found in
        let key : i.id ≡ k = find-id k db.jobs found in
        subst (λ n. locked n ≡ true) key (ground arith)
  ]

-- If a job has fewer than three attempts, then after a retry at `now` it is ready at `t` exactly
-- if `t` is not before `now` plus the backoff of its attempts.
pub is_ready-retry_row :
    (t now : ℕ) (trace : Option String) (j : Job)
    → j.attempts < 3
    → is_ready t (retry_row now trace j) ≡ leb (now + backoff j.attempts) t
is_ready-retry_row t now trace j h = ground arith
