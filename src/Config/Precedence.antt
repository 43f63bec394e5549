-- ===== src/Config/Precedence.antt =====
-- What `load_env` leaves in the environment.
use case_fullstack_senior.Prelude.{
  sym, ap, true, false, ◌≡◌, refl, ◌∙◌, Option, none, some, List, [], ◌∷◌, ◌++◌, inl, inr,
  Bool-cases, arith,
}
use case_fullstack_senior.Prelude.Text.{same-equal, Text, same}
use case_fullstack_senior.Config.{
  Entry, Files, find_env_file, text_of, or_else, loaded, has_key, get_item, setdefault, setdefaults,
  load_env,
}

get_item-append :
    (k : Text) (x y : List Entry) → get_item k (x ++ y) ≡ or_else (get_item k x) (get_item k y)
get_item-append k [] y = refl
get_item-append k (e ∷ x) y = elim (Bool-cases (same e.key k)) [
  | inl at ↦ rw at refl
  | inr apart ↦ rw apart (get_item-append k x y)
]

or_else_assoc : (x y z : Option Text) → or_else (or_else x y) z ≡ or_else x (or_else y z)
or_else_assoc none y z = refl
or_else_assoc (some x) y z = refl

unset : (k : Text) (x : List Entry) → has_key k x ≡ false → get_item k x ≡ none
unset k [] h = refl
unset k (e ∷ x) h =
    let apart : same e.key k ≡ false = ground arith in rw apart (unset k x (ground arith))

set : (k : Text) (x : List Entry) → has_key k x ≡ true → (v : Text) × (get_item k x ≡ some v)
set k [] h = absurd (ground arith)
set k (e ∷ x) h = elim (Bool-cases (same e.key k)) [
  | inl at ↦ (e.value, rw at refl)
  | inr apart ↦ let rest = set k x (ground arith) in (rest.0, rw apart rest.1)
]

or_else-none : (o : Option Text) → o ≡ or_else o none
or_else-none none = refl
or_else-none (some x) = refl

get_item-setdefault :
    (k : Text) (e : Entry) (environ : List Entry)
    → get_item k (setdefault e environ) ≡ or_else (get_item k environ) (get_item k (e ∷ []))
get_item-setdefault k e environ = elim (Bool-cases (has_key e.key environ)) [
  | inr new ↦ rw new (get_item-append k environ (e ∷ []))
  | inl old ↦ elim (Bool-cases (same e.key k)) [
    | inr apart ↦ rw (old, apart) (or_else-none (get_item k environ))
    | inl at ↦
        let there = set e.key environ old in
        let there_k : get_item k environ ≡ some there.0 =
          ap (λ j. get_item j environ) (sym (same-equal e.key k at)) ∙ there.1 in
        rw (old, there_k) refl
  ]
]

get_item-setdefaults :
    (k : Text) (values environ : List Entry)
    → get_item k (setdefaults values environ) ≡ or_else (get_item k environ) (get_item k values)
get_item-setdefaults k [] environ = or_else-none (get_item k environ)
get_item-setdefaults k (e ∷ values) environ =
    get_item-setdefaults k values (setdefault e environ)
    ∙ ap (λ (o : Option Text). or_else o (get_item k values)) (get_item-setdefault k e environ)
    ∙ or_else_assoc (get_item k environ) (get_item k (e ∷ [])) (get_item k values)
    ∙ ap (or_else (get_item k environ)) (sym (get_item-append k (e ∷ []) values))

-- After `load_env`, with a given file or the one that it finds, a variable that was set keeps its
-- value; any other one has the value that the returned dict gives it, and is unset if the dict
-- does not have it.
pub load_env-precedence :
    (read : Files) (root : Text) (env_file : Option Text) (environ : List Entry) (k : Text)
    → get_item k (load_env read root env_file environ).1
      ≡ or_else (get_item k environ) (get_item k (load_env read root env_file environ).0)
unfolding load_env
load_env-precedence read root env_file environ k =
    get_item-setdefaults k (loaded (text_of read (or_else env_file (find_env_file read root))))
      environ
