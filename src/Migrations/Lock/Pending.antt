-- ===== src/Migrations/Lock/Pending.antt =====
-- The pending files of a directory, and the ledger that grows by the first of them.
use case_fullstack_senior.Prelude.{
  String, Bool, true, false, not, ◌&&◌, ◌||◌, ◌≡◌, refl, ap, ◌∙◌, List, [], ◌∷◌, ◌++◌, any, select,
  str_eq, eq_iff, inl, inr, Bool-cases, arith,
}
use case_fullstack_senior.Migrations.{File, mem, is_pending}
use case_fullstack_senior.Migrations.Ledger.{mem-append}

abbrev pub is_up : String → File → Bool
is_up v f = not f.is_down && str_eq v f.version

-- No two files of a directory that are applied bear one version; a down file may.
abbrev pub are_distinct : List File → Bool
are_distinct [] = true
are_distinct (f ∷ fs) = (f.is_down || not (any (is_up f.version) fs)) && are_distinct fs

abbrev pub is_once : List String → Bool
is_once [] = true
is_once (v ∷ vs) = not (mem v vs) && is_once vs

pub is_once-append :
    (vs : List String) (v : String)
    → is_once vs ≡ true
    → mem v vs ≡ false
    → is_once (vs ++ v ∷ []) ≡ true
is_once-append [] v h new = refl
is_once-append (w ∷ vs) v h new =
    ground (arith, is_once-append vs v, mem-append w vs (v ∷ []), eq_iff w v, eq_iff v w)

select-without :
    (vs : List String) (v : String) (l : List File)
    → any (is_up v) l ≡ false
    → select (is_pending (vs ++ v ∷ [])) l ≡ select (is_pending vs) l
select-without vs v [] h = refl
select-without vs v (f ∷ l) h =
    let rest = select-without vs v l (ground arith) in
    ground (arith, mem-append f.version vs (v ∷ []), eq_iff f.version v, eq_iff v f.version)

-- The files that are pending after the first of them has been applied are the others.
pub pending_tail :
    (vs : List String) (f : File) (fs l : List File)
    → are_distinct l ≡ true
    → select (is_pending vs) l ≡ f ∷ fs
    → select (is_pending (vs ++ f.version ∷ [])) l ≡ fs
pending_tail vs f fs [] h e = absurd (ground arith)
pending_tail vs f fs (x ∷ l) h e = elim (Bool-cases (is_pending vs x)) [
  | inl waits ↦
      let same : x ≡ f = ground arith in
      let others : select (is_pending vs) l ≡ fs = ground arith in
      let named : x.version ≡ f.version = ap (λ (g : File). g.version) same in
      let alone : any (is_up f.version) l ≡ false = rw (← named) (ground arith) in
      let there = mem-append x.version vs (f.version ∷ []) in
      let gone : is_pending (vs ++ f.version ∷ []) x ≡ false =
        ground (arith, eq_iff x.version f.version) in
      rw gone (select-without vs f.version l alone ∙ others)
  | inr stays ↦
      let there = mem-append x.version vs (f.version ∷ []) in
      let still : is_pending (vs ++ f.version ∷ []) x ≡ false = ground arith in
      rw still (pending_tail vs f fs l (ground arith) (ground arith))
]

pub pending_new :
    (vs : List String) (f : File) (fs l : List File)
    → select (is_pending vs) l ≡ f ∷ fs
    → mem f.version vs ≡ false
pending_new vs f fs [] e = absurd (ground arith)
pending_new vs f fs (x ∷ l) e = elim (Bool-cases (is_pending vs x)) [
  | inl waits ↦ ground arith
  | inr stays ↦ pending_new vs f fs l (ground arith)
]
