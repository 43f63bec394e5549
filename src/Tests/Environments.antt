-- ===== src/Tests/Environments.antt =====
-- A `.env` file, and the environment of a process that reads it.
use case_fullstack_senior.Prelude.Int.{pos, ◌+ℤ◌}
use case_fullstack_senior.Prelude.{ℕ, ◌+◌, leb, true, ◌≡◌, refl, none, some, [], ◌∷◌, if◌then◌else◌}
use case_fullstack_senior.Prelude.Text.{codes, same}
use case_fullstack_senior.Config.{
  Entry, Files, parse_env_file, splitlines, parse_line, get_item, or_else, load_env,
}
use case_fullstack_senior.Auth.{all_digits}
use case_fullstack_senior.Auth.Canonical.{value_from}
use case_fullstack_senior.Config.Settings.{
  Pydantic, Pool, ◌>>=◌, common_settings, worker_settings, get_settings, get_pool, here,
}
use case_fullstack_senior.Config.Settings.Pooled.{is_usable, started, get_pool-usable}
use case_fullstack_senior.Config.RoundTrip.{render, parse_env_file-render}
use case_fullstack_senior.Config.Precedence.{load_env-precedence}

abbrev url : Entry
url = record { key = codes "DATABASE_URL"; value = codes "postgresql://app@db/relay?sslmode=off" }

abbrev padded : Entry
padded = record { key = codes "CORS_ORIGINS"; value = codes " a, b #" }

abbrev nothing : Entry
nothing = record { key = codes "TRACE"; value = [] }

parse_env_file-render_example :
    parse_env_file (render (url ∷ padded ∷ nothing ∷ [])) ≡ url ∷ padded ∷ nothing ∷ []
parse_env_file-render_example = parse_env_file-render (url ∷ padded ∷ nothing ∷ []) refl

-- What a file may hold besides: comments, lines without a key, spaces, other quotes, a key again.
odd_file :
    parse_env_file (codes "# a\n\n=x\nno\n A = 'b' \nA=\"c=d\"\r\nE='\n")
    ≡ record { key = codes "A"; value = codes "c=d" } ∷ record { key = codes "E"; value = [] } ∷ []
unfolding parse_env_file splitlines parse_line
odd_file = refl

abbrev files : Files
files path = if same path (codes "/srv/api/.env") then some (render (url ∷ nothing ∷ [])) else none

abbrev traced : Entry
traced = record { key = codes "TRACE"; value = codes "1" }

load_env-precedence_example :
    get_item (codes "TRACE") (load_env files (codes "/srv/api") none (traced ∷ [])).1
    ≡ or_else
        (get_item (codes "TRACE") (traced ∷ []))
        (get_item (codes "TRACE") (load_env files (codes "/srv/api") none (traced ∷ [])).0)
load_env-precedence_example =
    load_env-precedence files (codes "/srv/api") none (traced ∷ []) (codes "TRACE")

-- Floating-point numbers of the settings, as whole numbers
abbrev python : Pydantic ℕ
python = record {
  parse_int = λ t. if all_digits t then some (pos (value_from 0 t)) else none;
  parse_float = λ t. if all_digits t then some (value_from 0 t) else none;
  parse_bool = λ t. none;
  float = λ n. n;
  is_positive = λ n. leb 1 n;
  not_negative = λ n. true;
  at_most_one = λ n. leb n 1;
}

abbrev no_files : Files
no_files path = none

abbrev small : Entry
small = record { key = codes "DB_POOL_SIZE"; value = codes "1" }

abbrev first_pool : Pool ℕ
first_pool = record { url = url.value; max_size = pos 11; timeout = 30; max_lifetime = pos 1800 }

first_given : (get_pool python no_files [] (started (url ∷ small ∷ []))).0 ≡ some first_pool
unfolding get_pool get_settings worker_settings common_settings ◌>>=◌ load_env ◌+ℤ◌
first_given = refl

get_pool-usable_example : (is_usable first_pool ≡ true) × (0 ≡ 0 + 0)
get_pool-usable_example = get_pool-usable python no_files [] (url ∷ small ∷ []) here first_given
