-- ===== src/Config/RoundTrip.antt =====
-- A writer of `.env` files, and what the reader makes of its lines.
use case_fullstack_senior.Prelude.{
  ℕ, Bool, true, false, not, ◌&&◌, ◌||◌, ◌≡◌, refl, ap, sym, ◌∙◌, Option, some, List, [], ◌∷◌, ◌++◌,
  ◌==◌, any, arith, inl, inr, Bool-cases,
}
use case_fullstack_senior.Prelude.Strip.{
  is_empty, is_break, is_space, strip_end, strip, begins, ends, ends-append, ends-any,
  strip_end-ends, strip_end-snoc, strip_start-begins, strip-bare,
}
use case_fullstack_senior.Prelude.Text.{Text, same}
use case_fullstack_senior.Config.{
  Entry, is_quote, splitlines, partition_key, partition_value, is_comment, has_equals, parse_line,
  has_key, set_item, set_parsed, parse_lines, parse_env_file,
}

-- KEY="VALUE"
abbrev pub quoted : Text → Text
quoted v = b'"' ∷ (v ++ b'"' ∷ [])

abbrev pub line_of : Entry → Text
line_of e = e.key ++ b'=' ∷ quoted e.value

-- A line for each entry.
abbrev pub render : List Entry → Text
render [] = []
render (e ∷ values) = line_of e ++ b'\n' ∷ render values

-- A key that is not empty or a comment and has no spaces and no "=".
abbrev pub is_key : Text → Bool
is_key k = not (is_empty k) && not (is_comment k) && not (any (λ c. is_space c || c == b'=') k)

-- A value of one line without a quote at its ends. It may be empty, and have spaces at its ends.
abbrev pub is_value : Text → Bool
is_value v = not (any is_break v) && not (begins is_quote v) && not (ends is_quote v)

-- Entries that can be written, each with a key that no earlier one has.
abbrev pub is_printable : List Entry → List Entry → Bool
is_printable earlier [] = true
is_printable earlier (e ∷ values) =
    is_key e.key
    && is_value e.value
    && not (has_key e.key earlier)
    && is_printable (earlier ++ e ∷ []) values

any_mono :
    (p q : ℕ → Bool) (t : Text)
    → ((c : ℕ) → q c ≡ true → p c ≡ true)
    → any p t ≡ false
    → any q t ≡ false
any_mono p q [] le h = refl
any_mono p q (c ∷ t) le h = elim (Bool-cases (q c)) [
  | inl at ↦ let e = le c at in absurd (ground arith)
  | inr apart ↦ let rest = any_mono p q t le (ground arith) in ground arith
]

any-append : (p : ℕ → Bool) (s t : Text) → any p (s ++ t) ≡ (any p s || any p t)
any-append p [] t = refl
any-append p (c ∷ s) t = let rest = any-append p s t in ground arith

splitlines-line :
    (line rest : Text)
    → any is_break line ≡ false
    → splitlines (line ++ b'\n' ∷ rest) ≡ line ∷ splitlines rest
unfolding splitlines
splitlines-line [] rest h = refl
splitlines-line (c ∷ line) rest h =
    let plain : is_break c ≡ false = ground arith in
    rw (plain, splitlines-line line rest (ground arith)) refl

partition_key-line :
    (k v : Text) → any (λ c. c == b'=') k ≡ false → partition_key (k ++ b'=' ∷ v) ≡ k
partition_key-line [] v h = refl
partition_key-line (c ∷ k) v h =
    let plain : (c == b'=') ≡ false = ground arith in
    rw (plain, partition_key-line k v (ground arith)) refl

partition_value-line :
    (k v : Text) → any (λ c. c == b'=') k ≡ false → partition_value (k ++ b'=' ∷ v) ≡ v
partition_value-line [] v h = refl
partition_value-line (c ∷ k) v h =
    let plain : (c == b'=') ≡ false = ground arith in
    rw (plain, partition_value-line k v (ground arith)) refl

has_equals-line : (k v : Text) → has_equals (k ++ b'=' ∷ v) ≡ true
has_equals-line [] v = refl
has_equals-line (c ∷ k) v = let rest = has_equals-line k v in ground arith

ends-quoted : (v : Text) → ends is_space (quoted v) ≡ false
ends-quoted v = ends-append is_space (b'"' ∷ v) b'"' []

strip-quoted :
    (v : Text) → begins is_quote v ≡ false → ends is_quote v ≡ false → strip is_quote (quoted v) ≡ v
strip-quoted [] b e = refl
strip-quoted (c ∷ v) b e =
    ap (strip_end is_quote) (strip_start-begins is_quote ((c ∷ v) ++ b'"' ∷ []) b)
    ∙ strip_end-snoc is_quote (c ∷ v) b'"' refl
    ∙ strip_end-ends is_quote (c ∷ v) e

key-plain :
    (k : Text) → is_key k ≡ true → (any is_space k ≡ false) × (any (λ c. c == b'=') k ≡ false)
key-plain k h =
    let all : any (λ c. is_space c || c == b'=') k ≡ false = ground arith in
    (
      any_mono (λ c. is_space c || c == b'=') is_space k (λ c e. rw e refl) all,
      any_mono (λ c. is_space c || c == b'=') (λ c. c == b'=') k
          (λ c e. elim (Bool-cases (is_space c)) [
            | inl at ↦ rw at refl
            | inr apart ↦ rw (apart, e) refl
          ])
          all,
    )

begins-any : (p : ℕ → Bool) (t : Text) → any p t ≡ false → begins p t ≡ false
begins-any p [] h = refl
begins-any p (c ∷ t) h = ground arith

strip-key : (k : Text) → is_key k ≡ true → strip is_space k ≡ k
strip-key k h =
    let plain = (key-plain k h).0 in
    strip-bare is_space k (begins-any is_space k plain) (ends-any is_space k plain)

begins-append : (p : ℕ → Bool) (k t : Text) → is_empty k ≡ false → begins p (k ++ t) ≡ begins p k
begins-append p [] t h = absurd (ground arith)
begins-append p (c ∷ k) t h = refl

strip-line : (e : Entry) → is_key e.key ≡ true → strip is_space (line_of e) ≡ line_of e
strip-line e h =
    let plain = (key-plain e.key h).0 in
    let full : is_empty e.key ≡ false = ground arith in
    strip-bare is_space (line_of e)
      (begins-append is_space e.key (b'=' ∷ quoted e.value) full ∙ begins-any is_space e.key plain)
      (ends-append is_space e.key b'=' (quoted e.value) ∙ ends-quoted e.value)

begins_line :
    (k v : Text)
    → is_key k ≡ true
    → (is_empty (k ++ b'=' ∷ v) ≡ false) × (is_comment (k ++ b'=' ∷ v) ≡ false)
begins_line [] v h = absurd (ground arith)
begins_line (c ∷ k) v h = (refl, ground arith)

parse_line-line :
    (e : Entry) → is_key e.key ≡ true → is_value e.value ≡ true → parse_line (line_of e) ≡ some e
unfolding parse_line
parse_line-line e k v =
    let plain = (key-plain e.key k).1 in
    let quotes : strip is_quote (quoted e.value) ≡ e.value =
      strip-quoted e.value (ground arith) (ground arith) in
    let spaces : strip is_space (quoted e.value) ≡ quoted e.value =
      strip-bare is_space (quoted e.value) refl (ends-quoted e.value) in
    let full : is_empty e.key ≡ false = ground arith in
    rw
      (
        (begins_line e.key (quoted e.value) k).0,
        (begins_line e.key (quoted e.value) k).1,
        has_equals-line e.key (quoted e.value),
        partition_key-line e.key (quoted e.value) plain,
        partition_value-line e.key (quoted e.value) plain,
        strip-key e.key k,
        full,
      )
      (ap (λ (v : Text). some (record { key = e.key; value = v }))
        (ap (strip is_quote) spaces ∙ quotes))

space_break : (c : ℕ) → is_break c ≡ true → is_space c ≡ true
space_break c h = rw h refl

line-unbroken :
    (e : Entry) → is_key e.key ≡ true → is_value e.value ≡ true → any is_break (line_of e) ≡ false
line-unbroken e k v =
    let keys : any is_break e.key ≡ false =
      any_mono is_space is_break e.key space_break (key-plain e.key k).0 in
    let values : any is_break e.value ≡ false = ground arith in
    any-append is_break e.key (b'=' ∷ quoted e.value)
    ∙ rw (keys, any-append is_break e.value (b'"' ∷ []), values) refl

set_item-new :
    (e : Entry) (values : List Entry)
    → has_key e.key values ≡ false
    → set_item e values ≡ values ++ e ∷ []
set_item-new e [] h = refl
set_item-new e (first ∷ values) h =
    let apart : same first.key e.key ≡ false = ground arith in
    rw (apart, set_item-new e values (ground arith)) refl

append_entry : (x : List Entry) (e : Entry) (y : List Entry) → (x ++ e ∷ []) ++ y ≡ x ++ e ∷ y
append_entry [] e y = refl
append_entry (a ∷ x) e y = ap (λ (r : List Entry). a ∷ r) (append_entry x e y)

append_none : (x : List Entry) → x ++ [] ≡ x
append_none [] = refl
append_none (a ∷ x) = ap (λ (r : List Entry). a ∷ r) (append_none x)

parse_lines-line :
    (earlier : List Entry) (e : Entry) (lines : List Text)
    → is_key e.key ≡ true
    → is_value e.value ≡ true
    → has_key e.key earlier ≡ false
    → parse_lines earlier (line_of e ∷ lines) ≡ parse_lines (earlier ++ e ∷ []) lines
parse_lines-line earlier e lines k v new =
    ap (λ (t : Text). parse_lines (set_parsed (parse_line t) earlier) lines) (strip-line e k)
    ∙ ap (λ (o : Option Entry). parse_lines (set_parsed o earlier) lines) (parse_line-line e k v)
    ∙ ap (λ (d : List Entry). parse_lines d lines) (set_item-new e earlier new)

parse_lines-render :
    (earlier values : List Entry)
    → is_printable earlier values ≡ true
    → parse_lines earlier (splitlines (render values)) ≡ earlier ++ values
unfolding splitlines
parse_lines-render earlier [] h = sym (append_none earlier)
parse_lines-render earlier (e ∷ values) h =
    let k : is_key e.key ≡ true = ground arith in
    let v : is_value e.value ≡ true = ground arith in
    ap (parse_lines earlier) (splitlines-line (line_of e) (render values) (line-unbroken e k v))
    ∙ parse_lines-line earlier e (splitlines (render values)) k v (ground arith)
    ∙ parse_lines-render (earlier ++ e ∷ []) values (ground arith)
    ∙ append_entry earlier e values

-- If each key is not empty, has no space and no "=", does not begin with "#" and stands once, and
-- each value is one line without a quote at its ends, then reading a file with a line KEY="VALUE"
-- for each of these entries gives the entries back, in their order, also with values that are
-- empty or have spaces, "=" or "#" in them.
pub parse_env_file-render :
    (values : List Entry) → is_printable [] values ≡ true → parse_env_file (render values) ≡ values
unfolding parse_env_file
parse_env_file-render values h = parse_lines-render [] values h
