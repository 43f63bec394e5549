-- ===== src/Config.antt =====
-- {api,worker}/shared/config/env.py, which are the same file: the variables of a `.env` file, and
-- their way into the environment. The file system is a parameter.
pub mod RoundTrip
pub mod Precedence
pub mod Settings
use case_fullstack_senior.Prelude.{
  ℕ, Bool, true, false, not, ◌&&◌, ◌||◌, Option, none, some, List, [], ◌∷◌, ◌++◌, ◌==◌, leb,
  if◌then◌else◌, any,
}
use case_fullstack_senior.Prelude.Strip.{
  is_empty, is_break, is_space, strip_start, strip_end, strip, begins, ends,
}
use case_fullstack_senior.Prelude.Text.{Text, codes, same}

-- An item of a dict whose keys and values are texts.
pub record Entry : Type 0 where
  pub key : Text
  pub value : Text

abbrev pub is_quote : ℕ → Bool
is_quote c = c == b'\'' || c == b'"'

abbrev join_line : ℕ → List Text → List Text
join_line c [] = (c ∷ []) ∷ []
join_line c (line ∷ lines) = (c ∷ line) ∷ lines

unfoldable pub splitlines : Text → List Text
splitlines [] = []
splitlines (c ∷ t) = let rest = splitlines t in if is_break c then [] ∷ rest else join_line c rest

-- `key, _, value = line.partition("=")`
abbrev pub partition_key : Text → Text
partition_key [] = []
partition_key (c ∷ t) = let rest = partition_key t in if c == b'=' then [] else c ∷ rest

abbrev pub partition_value : Text → Text
partition_value [] = []
partition_value (c ∷ t) = let rest = partition_value t in if c == b'=' then t else rest

abbrev pub is_comment : Text → Bool
is_comment [] = false
is_comment (c ∷ t) = c == b'#'

abbrev pub has_equals : Text → Bool
has_equals = any (λ c. c == b'=')

-- What one stripped line sets, if it sets anything.
unfoldable pub parse_line : Text → Option Entry
parse_line line =
    if is_empty line || is_comment line || not (has_equals line)
    then none
    else (if is_empty (strip is_space (partition_key line))
        then none
        else some (record {
          key = strip is_space (partition_key line);
          value = strip is_quote (strip is_space (partition_value line));
        }))

-- `key in values`
abbrev pub has_key : Text → List Entry → Bool
has_key k = any (λ (e : Entry). same e.key k)

abbrev pub get_item : Text → List Entry → Option Text
get_item k [] = none
get_item k (e ∷ values) = if same e.key k then some e.value else get_item k values

-- `values[key] = value`: a key keeps its place
abbrev pub set_item : Entry → List Entry → List Entry
set_item e [] = e ∷ []
set_item e (first ∷ values) =
    let rest = set_item e values in if same first.key e.key then e ∷ values else first ∷ rest

abbrev pub set_parsed : Option Entry → List Entry → List Entry
set_parsed none values = values
set_parsed (some e) values = set_item e values

abbrev pub parse_lines : List Entry → List Text → List Entry
parse_lines values [] = values
parse_lines values (line ∷ lines) =
    parse_lines (set_parsed (parse_line (strip is_space line)) values) lines

-- `parse_env_file` of a file with this text
unfoldable pub parse_env_file : Text → List Entry
parse_env_file text = parse_lines [] (splitlines text)

-- `os.environ.setdefault(key, value)`
abbrev pub setdefault : Entry → List Entry → List Entry
setdefault e environ = if has_key e.key environ then environ else environ ++ e ∷ []

abbrev pub setdefaults : List Entry → List Entry → List Entry
setdefaults [] environ = environ
setdefaults (e ∷ values) environ = setdefaults values (setdefault e environ)

-- The texts of the files that are there, by their paths.
abbrev pub Files : Type 0
Files = Text → Option Text

abbrev pub find_env_file : Files → Text → Option Text
find_env_file read root = elim (read (root ++ codes "/.env")) [
  | none ↦ none
  | some text ↦ some (root ++ codes "/.env")
]

abbrev pub text_of : Files → Option Text → Option Text
text_of read none = none
text_of read (some path) = read path

abbrev pub or_else {ℓ} : {A : Type ℓ} → Option A → Option A → Option A
or_else none y = y
or_else (some x) y = some x

abbrev pub loaded : Option Text → List Entry
loaded none = []
loaded (some text) = parse_env_file text

-- `load_env`: the values of the file, and the environment that it leaves.
unfoldable pub load_env : Files → Text → Option Text → List Entry → List Entry × List Entry
load_env read root env_file environ =
    let values = loaded (text_of read (or_else env_file (find_env_file read root))) in
    (values, setdefaults values environ)
