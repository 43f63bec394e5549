-- ===== src/Config/Settings.antt =====
-- {api,worker}/shared/config/settings.py and {api,worker}/shared/db/pool.py: the settings that the
-- environment gives a process, and the pool of connections that it opens with them. How pydantic
-- parses a text, and the floating-point numbers, are parameters.
pub mod Pooled
use case_fullstack_senior.Prelude.{
  ℕ, suc, ◌+◌, Bool, true, false, not, ◌&&◌, Option, none, some, List, if◌then◌else◌,
}
use case_fullstack_senior.Prelude.Int.{ℤ, pos, ◌+ℤ◌, leb_ℤ}
use case_fullstack_senior.Prelude.Strip.{is_empty, is_space, strip}
use case_fullstack_senior.Prelude.Text.{Text, codes}
use case_fullstack_senior.Config.{Entry, Files, get_item, load_env}

-- What the settings use of pydantic and of floating-point numbers: `none` is a text that does not
-- parse.
pub record Pydantic (Float : Type 0) : Type 0 where
  pub parse_int : Text → Option ℤ
  pub parse_float : Text → Option Float
  pub parse_bool : Text → Option Bool
  pub float : ℕ → Float
  pub is_positive : Float → Bool
  pub not_negative : Float → Bool
  pub at_most_one : Float → Bool

-- The fields that the two services share
pub record Settings (Float : Type 0) : Type 0 where
  pub database_url : Text
  pub db_pool_size : ℤ
  pub db_max_overflow : ℤ
  pub db_pool_timeout_s : Float
  pub db_pool_recycle_s : ℤ
  pub cors_origins : Text
  pub log_slow_threshold_ms : Float
  pub log_success_sample_rate : Float

infixl 5 ◌>>=◌
unfoldable pub ◌>>=◌ : {A B : Type 0} → Option A → (A → Option B) → Option B
none >>= f = none
some a >>= f = f a

-- A field of the environment: its default if it is not set, else what it parses to, in its range
abbrev pub field : {A : Type 0} → (Text → Option A) → (A → Bool) → A → Option Text → Option A
field parse allowed default none = some default
field parse allowed default (some text) = elim (parse text) [
  | none ↦ none
  | some a ↦ if allowed a then some a else none
]

-- `database_url_not_empty`, for a field without a default
abbrev pub database_url_not_empty : Option Text → Option Text
database_url_not_empty none = none
database_url_not_empty (some url) = if is_empty (strip is_space url) then none else some url

module _ {Float : Type 0} (py : Pydantic Float) (environ : List Entry) where
  -- `Settings.model_validate` of the shared fields
  unfoldable pub common_settings : Option (Settings Float)
  common_settings = do
    url ← database_url_not_empty (get_item (codes "DATABASE_URL") environ)
    size ← field py.parse_int (leb_ℤ (pos 1)) (pos 5) (get_item (codes "DB_POOL_SIZE") environ)
    overflow ←
        field py.parse_int (leb_ℤ (pos 0)) (pos 10) (get_item (codes "DB_MAX_OVERFLOW") environ)
    timeout ←
        field py.parse_float py.is_positive (py.float 30)
          (get_item (codes "DB_POOL_TIMEOUT_S") environ)
    recycle ←
        field py.parse_int (leb_ℤ (pos 0)) (pos 1800) (get_item (codes "DB_POOL_RECYCLE_S") environ)
    origins ←
        field (λ t. some t) (λ t. true) (codes "http://localhost:5173")
          (get_item (codes "CORS_ORIGINS") environ)
    slow ←
        field py.parse_float (λ f. py.not_negative f) (py.float 1000)
          (get_item (codes "LOG_SLOW_THRESHOLD_MS") environ)
    rate ←
        field py.parse_float (λ f. py.not_negative f && py.at_most_one f) (py.float 1)
          (get_item (codes "LOG_SUCCESS_SAMPLE_RATE") environ)
    some (record {
      database_url = url;
      db_pool_size = size;
      db_max_overflow = overflow;
      db_pool_timeout_s = timeout;
      db_pool_recycle_s = recycle;
      cors_origins = origins;
      log_slow_threshold_ms = slow;
      log_success_sample_rate = rate;
    })

  -- The API's settings, with log_suppress_probe_routes
  unfoldable pub api_settings : Option (Settings Float × Bool)
  unfolding common_settings
  api_settings = do
    s ← common_settings
    suppress ←
        field py.parse_bool (λ b. true) false (get_item (codes "LOG_SUPPRESS_PROBE_ROUTES") environ)
    some (s, suppress)

-- `pool_supports_processing`
abbrev pub pool_supports_processing : {Float : Type 0} → Settings Float → Bool
pool_supports_processing s = leb_ℤ (pos 3) (s.db_pool_size +ℤ s.db_max_overflow)

-- The worker's settings, with job_simulated_work_s
unfoldable pub worker_settings :
    {Float : Type 0} → Pydantic Float → List Entry → Option (Settings Float × Float)
unfolding common_settings
worker_settings py environ = do
  s ← common_settings py environ
  work ←
      field py.parse_float (λ f. py.not_negative f) (py.float 1)
        (get_item (codes "JOB_SIMULATED_WORK_S") environ)
  if pool_supports_processing s then some (s, work) else none

-- psycopg_pool.ConnectionPool, with a min_size of 1
pub record Pool (Float : Type 0) : Type 0 where
  pub url : Text
  pub max_size : ℤ
  pub timeout : Float
  pub max_lifetime : ℤ

abbrev pub pool_of : {Float : Type 0} → Settings Float → Pool Float
pool_of s = record {
  url = s.database_url;
  max_size = s.db_pool_size +ℤ s.db_max_overflow;
  timeout = s.db_pool_timeout_s;
  max_lifetime = s.db_pool_recycle_s;
}

-- The state of a worker process: its environment, the cache of `get_settings`, the global `_pool`,
-- and how many pools it has opened and closed.
pub record Runtime (Float : Type 0) : Type 0 where
  pub environ : List Entry
  pub settings : Option (Settings Float × Float)
  pub pool : Option (Pool Float)
  pub opened : ℕ
  pub closed : ℕ

-- ConnectionPool(…), with the settings if there are any
abbrev pub open_pool :
    {Float : Type 0}
    → Option (Settings Float × Float)
    → Runtime Float
    → Option (Pool Float) × Runtime Float
open_pool none rt = (none, rt)
open_pool (some (s, work)) rt =
    (some (pool_of s), record rt { pool = some (pool_of s); opened = suc rt.opened })

module _ {Float : Type 0} (py : Pydantic Float) (read : Files) (root : Text) where
  -- `get_settings`; an exception is not cached.
  unfoldable pub get_settings : Runtime Float → Option (Settings Float × Float) × Runtime Float
  unfolding load_env worker_settings
  get_settings rt = elim rt.settings [
    | some s ↦ (some s, rt)
    | none ↦
        let environ = (load_env read root none rt.environ).1 in
        let s = worker_settings py environ in (s, record rt { environ = environ; settings = s })
  ]

  -- `get_pool`; `none` is the exception of `get_settings`.
  unfoldable pub get_pool : Runtime Float → Option (Pool Float) × Runtime Float
  unfolding get_settings
  get_pool rt = elim rt.pool [
    | some p ↦ (some p, rt)
    | none ↦ let (settings, loaded) = get_settings rt in open_pool settings loaded
  ]

-- `dispose_pool`
unfoldable pub dispose_pool : {Float : Type 0} → Runtime Float → Runtime Float
dispose_pool rt = elim rt.pool [
  | none ↦ rt
  | some p ↦ record rt { pool = none; closed = suc rt.closed }
]

-- What may happen to the process: another write to its environment, a use of the settings or of the
-- pool, which may raise, and the end of the process's use of the pool.
module _ {Float : Type 0} (py : Pydantic Float) (read : Files) (root : Text) where
  pub data Call (rt : Runtime Float) : Runtime Float → Type 0 where
    set_environ : (environ : List Entry) → Call rt (record rt { environ = environ })
    use_settings : Call rt (get_settings py read root rt).1
    use_pool : Call rt (get_pool py read root rt).1
    dispose : Call rt (dispose_pool rt)

  pub data Calls (rt : Runtime Float) : Runtime Float → Type 0 where
    here : Calls rt rt
    next : {s t : Runtime Float} → Calls rt s → Call s t → Calls rt t
