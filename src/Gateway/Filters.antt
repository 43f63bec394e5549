-- ===== src/Gateway/Filters.antt =====
-- install_probe_route_access_filter and remove_probe_route_access_filter of
-- api/shared/logging/access_log.py, over the filters of uvicorn's access logger.
use case_fullstack_senior.Prelude.{
  ℕ, ◌≡◌, refl, ap, ◌||◌, ◌∙◌, Bool, true, false, not, List, [], ◌∷◌, ◌++◌, ◌==◌, if◌then◌else◌,
  any, select, inl, inr, Bool-cases, arith,
}

-- A filter object: its identity, and whether it is a ProbeRouteAccessFilter.
pub record LogFilter : Type 0 where
  pub identity : ℕ
  pub is_probe_filter : Bool

-- `logger.addFilter` of a new filter
abbrev pub install_probe_route_access_filter : ℕ → List LogFilter → List LogFilter
install_probe_route_access_filter identity filters =
    if any (λ (f : LogFilter). f.is_probe_filter) filters
    then filters
    else filters ++ record { identity = identity; is_probe_filter = true } ∷ []

-- `logger.removeFilter`
abbrev pub remove_filter : LogFilter → List LogFilter → List LogFilter
remove_filter f [] = []
remove_filter f (g ∷ filters) =
    let rest = remove_filter f filters in if g.identity == f.identity then filters else g ∷ rest

abbrev remove_each : List LogFilter → List LogFilter → List LogFilter
remove_each [] filters = filters
remove_each (f ∷ existing) filters = remove_each existing (remove_filter f filters)

abbrev pub remove_probe_route_access_filter : List LogFilter → List LogFilter
remove_probe_route_access_filter filters =
    remove_each (select (λ (f : LogFilter). f.is_probe_filter) filters) filters

-- The filters that others have added
abbrev pub others : List LogFilter → List LogFilter
others filters = select (λ (f : LogFilter). not f.is_probe_filter) filters

-- No filter object was added twice.
abbrev pub IsDistinct : List LogFilter → Type 0
IsDistinct [] = Unit
IsDistinct (f ∷ filters) =
    (any (λ (g : LogFilter). g.identity == f.identity) filters ≡ false) × IsDistinct filters

any-select :
    (p q : LogFilter → Bool) (l : List LogFilter) → any p l ≡ false → any p (select q l) ≡ false
any-select p q [] h = refl
any-select p q (f ∷ l) h = let rest = any-select p q l (ground arith) in ground arith

-- A filter that is not removed stays in front.
remove_each-front :
    (existing : List LogFilter) (g : LogFilter) (filters : List LogFilter)
    → any (λ (f : LogFilter). f.identity == g.identity) existing ≡ false
    → remove_each existing (g ∷ filters) ≡ g ∷ remove_each existing filters
remove_each-front [] g filters h = refl
remove_each-front (f ∷ existing) g filters h =
    let apart : (g.identity == f.identity) ≡ false = ground arith in
    rw apart (remove_each-front existing g (remove_filter f filters) (ground arith))

remove_filter_self :
    (f : LogFilter) (filters : List LogFilter) → remove_filter f (f ∷ filters) ≡ filters
remove_filter_self f filters =
    let self : (f.identity == f.identity) ≡ true = ground arith in rw self refl

remove-front :
    (i : ℕ) (b : Bool) (filters : List LogFilter)
    → any (λ (g : LogFilter). g.identity == i) filters ≡ false
    → remove_probe_route_access_filter filters ≡ others filters
    → remove_probe_route_access_filter (record { identity = i; is_probe_filter = b } ∷ filters)
      ≡ others (record { identity = i; is_probe_filter = b } ∷ filters)
remove-front i true filters apart ih =
    ap (remove_each (select (λ (f : LogFilter). f.is_probe_filter) filters))
      (remove_filter_self (record { identity = i; is_probe_filter = true }) filters)
    ∙ ih
remove-front i false filters apart ih =
    remove_each-front _ (record { identity = i; is_probe_filter = false }) filters
      (any-select _ _ filters apart)
    ∙ ap (λ (l : List LogFilter). record { identity = i; is_probe_filter = false } ∷ l) ih

remove-others :
    (filters : List LogFilter)
    → IsDistinct filters
    → remove_probe_route_access_filter filters ≡ others filters
remove-others [] d = refl
remove-others (f ∷ filters) (apart, d) =
    remove-front f.identity f.is_probe_filter filters apart (remove-others filters d)

any-append : (p : LogFilter → Bool) (x y : List LogFilter) → any p (x ++ y) ≡ (any p x || any p y)
any-append p [] y = refl
any-append p (f ∷ x) y = let rest = any-append p x y in ground arith

others-append :
    (x : List LogFilter) (i : ℕ)
    → others (x ++ record { identity = i; is_probe_filter = true } ∷ []) ≡ others x
others-append [] i = refl
others-append (f ∷ x) i =
    ap (λ (l : List LogFilter). if not f.is_probe_filter then f ∷ l else l) (others-append x i)

IsDistinct-append :
    (x : List LogFilter) (i : ℕ) (b : Bool)
    → IsDistinct x
    → any (λ (g : LogFilter). g.identity == i) x ≡ false
    → IsDistinct (x ++ record { identity = i; is_probe_filter = b } ∷ [])
IsDistinct-append [] i b d new = (refl, tt)
IsDistinct-append (f ∷ x) i b (apart, d) new =
    let joined =
      any-append (λ (g : LogFilter). g.identity == f.identity) x
        (record { identity = i; is_probe_filter = b } ∷ []) in
    (ground arith, IsDistinct-append x i b d (ground arith))

-- If no filter stands twice in the access logger and a new filter object is none of them, then
-- after an installation a probe filter is there and the filters of others are as they were, a
-- second installation changes nothing, and a removal leaves exactly the filters of others.
pub install-remove :
    (i j : ℕ) (filters : List LogFilter)
    → IsDistinct filters
    → any (λ (g : LogFilter). g.identity == i) filters ≡ false
    → let installed = install_probe_route_access_filter i filters in
      (any (λ (f : LogFilter). f.is_probe_filter) installed ≡ true)
      × (others installed ≡ others filters)
      × (install_probe_route_access_filter j installed ≡ installed)
      × (remove_probe_route_access_filter installed ≡ others filters)
install-remove i j filters d new =
    elim (Bool-cases (any (λ (f : LogFilter). f.is_probe_filter) filters)) [
      | inl there ↦ rw there (there, refl, rw there refl, remove-others filters d)
      | inr absent ↦
          let probe : LogFilter = record { identity = i; is_probe_filter = true } in
          let now : any (λ (f : LogFilter). f.is_probe_filter) (filters ++ probe ∷ []) ≡ true =
            any-append (λ (f : LogFilter). f.is_probe_filter) filters (probe ∷ [])
            ∙ rw absent refl in
          rw absent (
            now,
            others-append filters i,
            rw now refl,
            remove-others (filters ++ probe ∷ []) (IsDistinct-append filters i true d new)
                ∙ others-append filters i,
          )
    ]
