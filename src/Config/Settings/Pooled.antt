-- ===== src/Config/Settings/Pooled.antt =====
-- The pool of a worker process, over the calls that use it.
use mathlib.Core.Path.{subst}
use case_fullstack_senior.Prelude.{
  ℕ, ◌+◌, Bool, true, false, not, ◌&&◌, ◌≡◌, refl, ap, ◌∙◌, Option, none, some, List, if◌then◌else◌,
  inl, inr, Bool-cases, arith,
}
use case_fullstack_senior.Prelude.Int.{pos, leb_ℤ}
use case_fullstack_senior.Prelude.Strip.{is_empty, is_space, strip}
use case_fullstack_senior.Prelude.Text.{Text, codes}
use case_fullstack_senior.Config.{Entry, Files, get_item, load_env}
use case_fullstack_senior.Config.Settings.{
  Pydantic, Settings, ◌>>=◌, database_url_not_empty, common_settings, pool_supports_processing,
  worker_settings, Pool, Runtime, get_settings, pool_of, open_pool, get_pool, dispose_pool, Call,
  set_environ, use_settings, use_pool, dispose, Calls, here, next,
}

abbrev pub is_some : {A : Type 0} → Option A → Bool
is_some none = false
is_some (some a) = true

-- What a result holds, if there is one
abbrev Holds : {B : Type 0} → (B → Type 0) → Option B → Type 0
Holds P none = Unit
Holds P (some b) = P b

bind-Holds :
    {A B : Type 0} (P : B → Type 0) (m : Option A) (f : A → Option B)
    → ((a : A) → m ≡ some a → Holds P (f a))
    → Holds P (m >>= f)
unfolding ◌>>=◌
bind-Holds P none f h = tt
bind-Holds P (some a) f h = h a refl

if-Holds :
    {B : Type 0} (P : B → Type 0) (test : Bool) (b : B)
    → (test ≡ true → P b)
    → Holds P (if test then some b else none)
if-Holds P true b h = h refl
if-Holds P false b h = tt

url_lem :
    (o : Option Text) {url : Text}
    → database_url_not_empty o ≡ some url
    → is_empty (strip is_space url) ≡ false
url_lem none e = absurd (ground arith)
url_lem (some u) {url} e = elim (Bool-cases (is_empty (strip is_space u))) [
  | inl blank ↦ absurd (ground arith)
  | inr full ↦ let same : u ≡ url = ground arith in rw⁻¹ same full
]

module _ {Float : Type 0} where
  -- A URL that is not blank, and room for processing, heartbeat and cancellation
  abbrev pub is_usable : Pool Float → Bool
  is_usable p = not (is_empty (strip is_space p.url)) && leb_ℤ (pos 3) p.max_size

  -- Settings whose URL is not blank
  abbrev HasUrl : Settings Float → Type 0
  HasUrl s = is_empty (strip is_space s.database_url) ≡ false

  common_settings-HasUrl :
      (py : Pydantic Float) (environ : List Entry) → Holds HasUrl (common_settings py environ)
  unfolding common_settings
  common_settings-HasUrl py environ = bind-Holds HasUrl _ _ (λ url e.
      bind-Holds HasUrl _ _ (λ size _. bind-Holds HasUrl _ _ (λ overflow _.
        bind-Holds HasUrl _ _ (λ timeout _. bind-Holds HasUrl _ _ (λ recycle _.
          bind-Holds HasUrl _ _ (λ origins _. bind-Holds HasUrl _ _ (λ slow _.
            bind-Holds HasUrl _ _
              (λ rate _. url_lem (get_item (codes "DATABASE_URL") environ) e))))))))

  -- What the worker opens a pool with
  abbrev Fits : Settings Float × Float → Type 0
  Fits s =
      (is_empty (strip is_space s.0.database_url) ≡ false) × (pool_supports_processing s.0 ≡ true)

  worker_settings-Fits :
      (py : Pydantic Float) (environ : List Entry) → Holds Fits (worker_settings py environ)
  unfolding worker_settings
  worker_settings-Fits py environ =
      let urls = common_settings-HasUrl py environ in
      bind-Holds Fits (common_settings py environ) _ (λ s e. bind-Holds Fits _ _ (λ work _.
        let full : HasUrl s = subst (Holds HasUrl) e urls in
        if-Holds Fits (pool_supports_processing s) (s, work) (λ enough. (full, enough))))

  -- Settings or a pool that are there are usable; one pool more is opened than closed if it is
  -- there, else as many.
  record IsPooled (rt : Runtime Float) : Type 0 where
    pub cached : Holds Fits rt.settings
    pub sized : Holds (λ p. is_usable p ≡ true) rt.pool
    pub single : rt.opened ≡ rt.closed + (if is_some rt.pool then 1 else 0)

  opened_lem :
      (settings : Option (Settings Float × Float)) (loaded : Runtime Float)
      → Holds Fits settings
      → loaded.pool ≡ none
      → IsPooled loaded
      → IsPooled (open_pool settings loaded).1
        × Holds (λ p. is_usable p ≡ true) (open_pool settings loaded).0
  opened_lem none loaded fits shut h = (h, tt)
  opened_lem (some (s, work)) loaded fits shut h =
      let usable : is_usable (pool_of s) ≡ true = rw (fits.0, fits.1) refl in
      (
        record {
          cached = h.cached;
          sized = usable;
          single =
              let before : loaded.opened ≡ loaded.closed + 0 =
                h.single ∙ ap (λ o. loaded.closed + (if is_some o then 1 else 0)) shut in
              omega arith;
        },
        usable,
      )

  -- The settings are cached once they are there.
  module _ (py : Pydantic Float) (read : Files) (root : Text) where
    get_settings-IsPooled :
        (environ : List Entry) (settings : Option (Settings Float × Float))
        (pool : Option (Pool Float)) (opened closed : ℕ)
        → let rt : Runtime Float = record {
          environ = environ;
          settings = settings;
          pool = pool;
          opened = opened;
          closed = closed;
        } in
          IsPooled rt
          → IsPooled (get_settings py read root rt).1
            × Holds Fits (get_settings py read root rt).0
            × ((get_settings py read root rt).1.pool ≡ pool)
    unfolding get_settings
    get_settings-IsPooled environ none pool opened closed h =
        let fits = worker_settings-Fits py (load_env read root none environ).1 in
        (record { cached = fits; sized = h.sized; single = h.single }, fits, refl)
    get_settings-IsPooled environ (some s) pool opened closed h = (h, h.cached, refl)

    get_pool-IsPooled :
        (environ : List Entry) (settings : Option (Settings Float × Float))
        (pool : Option (Pool Float)) (opened closed : ℕ)
        → let rt : Runtime Float = record {
          environ = environ;
          settings = settings;
          pool = pool;
          opened = opened;
          closed = closed;
        } in
          IsPooled rt
          → IsPooled (get_pool py read root rt).1
            × Holds (λ p. is_usable p ≡ true) (get_pool py read root rt).0
    unfolding get_pool
    get_pool-IsPooled environ settings (some p) opened closed h = (h, h.sized)
    get_pool-IsPooled environ settings none opened closed h =
        let (pooled, fits, shut) = get_settings-IsPooled environ settings none opened closed h in
        opened_lem _ _ fits shut pooled

    dispose_pool-IsPooled :
        (environ : List Entry) (settings : Option (Settings Float × Float))
        (pool : Option (Pool Float)) (opened closed : ℕ)
        → let rt : Runtime Float = record {
          environ = environ;
          settings = settings;
          pool = pool;
          opened = opened;
          closed = closed;
        } in
          IsPooled rt → IsPooled (dispose_pool rt)
    unfolding dispose_pool
    dispose_pool-IsPooled environ settings none opened closed h = h
    dispose_pool-IsPooled environ settings (some p) opened closed h =
        let before = h.single in record { cached = h.cached; sized = tt; single = omega arith }

    Call-IsPooled : {s t : Runtime Float} → Call py read root s t → IsPooled s → IsPooled t
    Call-IsPooled (set_environ environ) h = record {
      cached = h.cached;
      sized = h.sized;
      single = h.single;
    }
    Call-IsPooled {s} use_settings h =
        (get_settings-IsPooled s.environ s.settings s.pool s.opened s.closed h).0
    Call-IsPooled {s} use_pool h =
        (get_pool-IsPooled s.environ s.settings s.pool s.opened s.closed h).0
    Call-IsPooled {s} dispose h =
        dispose_pool-IsPooled s.environ s.settings s.pool s.opened s.closed h

    Calls-IsPooled : {s t : Runtime Float} → Calls py read root s t → IsPooled s → IsPooled t
    Calls-IsPooled here h = h
    Calls-IsPooled (next calls call) h = Call-IsPooled call (Calls-IsPooled calls h)

-- A process at its start
abbrev pub started : {Float : Type 0} → List Entry → Runtime Float
started environ = record { environ = environ; settings = none; pool = none; opened = 0; closed = 0 }

-- However a worker process uses its settings and its pool, and whatever is written to its
-- environment meanwhile: a pool that `get_pool` gives has a URL that is not blank and room for at
-- least three connections, for the processing, the heartbeat and the cancellation; and of the
-- pools that were opened all but the one that is in use were closed.
pub get_pool-usable :
    {Float : Type 0} (py : Pydantic Float) (read : Files) (root : Text) (environ : List Entry)
    {rt : Runtime Float} {p : Pool Float}
    → Calls py read root (started environ) rt
    → (get_pool py read root rt).0 ≡ some p
    → (is_usable p ≡ true) × (rt.opened ≡ rt.closed + (if is_some rt.pool then 1 else 0))
get_pool-usable py read root environ {rt} {p} calls given =
    let h = Calls-IsPooled py read root calls (record { cached = tt; sized = tt; single = refl }) in
    let (_, usable) =
      get_pool-IsPooled py read root rt.environ rt.settings rt.pool rt.opened rt.closed h in
    (subst (Holds (λ q. is_usable q ≡ true)) given usable, h.single)
