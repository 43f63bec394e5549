-- ===== src/Auth/Canonical.antt =====
-- An accepted header is the text of its context: the principal that the audit names.
use case_fullstack_senior.Prelude.{
  ℕ, zero, suc, ◌+◌, ◌-◌, ◌*◌, ◌/◌, ◌%◌, ◌≤◌, ◌<◌, true, false, ◌≡◌, refl, ◌∙◌, ap, sym, Option,
  some, [], ◌∷◌, ◌++◌, ◌==◌, arith, ltb, if◌then◌else◌, inl, inr, Bool-cases,
}
use case_fullstack_senior.Prelude.Text.{Text, codes}
use case_fullstack_senior.Http.{AuthContext, Role, success, role_text}
use case_fullstack_senior.Auth.{
  before_colon, after_colon, has_colon, all_digits, is_canonical, current_ctx,
}

-- `int(text)` of a text of digits, after `acc`
abbrev pub value_from : ℕ → Text → ℕ
value_from acc [] = acc
value_from acc (c ∷ t) = value_from (acc * 10 + (c - b'0')) t

abbrev digits_fuel : ℕ → ℕ → Text
digits_fuel zero n = []
digits_fuel (suc f) n =
    let front = digits_fuel f (n / 10) in
    if ltb n 10 then (b'0' + n) ∷ [] else front ++ (b'0' + n % 10) ∷ []

-- `str(n)`; a number has at most as many digits as its value, or one.
unfoldable pub digits : ℕ → Text
digits n = digits_fuel (suc n) n

digits_fuel-enough : (f g n : ℕ) → n < f → n < g → digits_fuel f n ≡ digits_fuel g n
digits_fuel-enough zero g n a b = absurd (omega arith)
digits_fuel-enough (suc f) zero n a b = absurd (omega arith)
digits_fuel-enough (suc f) (suc g) n a b = elim (Bool-cases (ltb n 10)) [
  | inl small ↦ rw small refl
  | inr big ↦
      let smaller : n / 10 < n = ground arith in
      rw big (
        ap (λ (t : Text). t ++ (b'0' + n % 10) ∷ [])
          (digits_fuel-enough f g (n / 10) (omega arith) (omega arith)))
]

digits-snoc : (a d : ℕ) → 1 ≤ a → d < 10 → digits (a * 10 + d) ≡ digits a ++ (b'0' + d) ∷ []
unfolding digits
digits-snoc a d pos small =
    let n : ℕ = a * 10 + d in
    let big : ltb (a * 10 + d) 10 ≡ false = ground arith in
    let front : (a * 10 + d) / 10 ≡ a = omega arith in
    let last : (a * 10 + d) % 10 ≡ d = omega arith in
    rw (big, front, last)
      (ap (λ (t : Text). t ++ (b'0' + d) ∷ [])
        (digits_fuel-enough (a * 10 + d) (suc a) a (omega arith) (omega arith)))

append_assoc : (x y z : Text) → (x ++ y) ++ z ≡ x ++ (y ++ z)
append_assoc [] y z = refl
append_assoc (a ∷ x) y z = ap (λ (r : Text). a ∷ r) (append_assoc x y z)

append_nil : (x : Text) → x ++ [] ≡ x
append_nil [] = refl
append_nil (a ∷ x) = ap (λ (r : Text). a ∷ r) (append_nil x)

digits-value_from :
    (acc : ℕ) (t : Text)
    → 1 ≤ acc
    → all_digits t ≡ true
    → digits (value_from acc t) ≡ digits acc ++ t
digits-value_from acc [] pos h = sym (append_nil (digits acc))
digits-value_from acc (c ∷ t) pos h =
    let low : b'0' ≤ c = ground arith in
    let high : c ≤ b'9' = ground arith in
    let back : b'0' + (c - b'0') ≡ c = omega arith in
    let rest : all_digits t ≡ true = ground arith in
    digits-value_from (acc * 10 + (c - b'0')) t (omega arith) rest
    ∙ ap (λ (x : Text). x ++ t) (digits-snoc acc (c - b'0') pos (omega arith))
    ∙ append_assoc (digits acc) ((b'0' + (c - b'0')) ∷ []) t
    ∙ ap (λ (x : ℕ). digits acc ++ x ∷ t) back

digits-one : (d : ℕ) → d < 10 → digits d ≡ (b'0' + d) ∷ []
unfolding digits
digits-one d small = let e : ltb d 10 ≡ true = ground arith in rw e refl

-- `str(int(t))` of a canonical text is the text.
pub digits-value : (t : Text) → is_canonical t ≡ true → digits (value_from 0 t) ≡ t
digits-value [] h = absurd (ground arith)
digits-value (c ∷ t) h =
    let low : b'0' ≤ c = ground arith in
    let high : c ≤ b'9' = ground arith in
    let other : (c == b'0') ≡ false = ground arith in
    let above : b'0' < c = ground arith in
    let back : b'0' + (c - b'0') ≡ c = omega arith in
    let rest : all_digits t ≡ true = ground arith in
    let first : 0 * 10 + (c - b'0') ≡ c - b'0' = omega arith in
    ap (λ n. digits (value_from n t)) first
    ∙ digits-value_from (c - b'0') t (omega arith) rest
    ∙ ap (λ (x : Text). x ++ t) (digits-one (c - b'0') (omega arith))
    ∙ ap (λ (x : ℕ). x ∷ t) back

colon-split : (t : Text) → has_colon t ≡ true → t ≡ before_colon t ++ b':' ∷ after_colon t
colon-split [] h = absurd (ground arith)
colon-split (c ∷ t) h = elim (Bool-cases (c == b':')) [
  | inl at ↦ let e : c ≡ b':' = ground arith in rw (at, e) refl
  | inr apart ↦
      let rest : has_colon t ≡ true = ground arith in
      rw apart (ap (λ (r : Text). c ∷ r) (colon-split t rest))
]

abbrev pub role_codes : Role → Text
role_codes r = codes (role_text r)

-- What pydantic documents of a `company_id: int` and a `role: Literal["user", "admin"]`: a text of
-- digits is parsed to its value, and the role is one of the two texts.
abbrev pub Parses : (Text → Text → Option AuthContext) → Type 0
Parses validate =
    (company_id role : Text) (ctx : AuthContext)
    → all_digits company_id ≡ true
    → validate company_id role ≡ some ctx
    → (ctx.company_id ≡ value_from 0 company_id) × (role ≡ role_codes ctx.role)

-- If pydantic parses as documented and a header is accepted, then the header is the decimal
-- number of the company of its context, a colon, and the context's role: the text that the audit
-- records as the actor.
pub current_ctx-canonical :
    (validate : Text → Text → Option AuthContext) (x_auth : Text) {ctx : AuthContext}
    → Parses validate
    → current_ctx validate (some x_auth) ≡ success 200 ctx
    → x_auth ≡ digits ctx.company_id ++ b':' ∷ role_codes ctx.role
unfolding current_ctx
current_ctx-canonical validate x_auth {ctx} parses e =
    let colon : has_colon x_auth ≡ true = ground arith in
    let canonical : is_canonical (before_colon x_auth) ≡ true = ground arith in
    let taken : validate (before_colon x_auth) (after_colon x_auth) ≡ some ctx = ground arith in
    let (number, role) =
      parses (before_colon x_auth) (after_colon x_auth) ctx
        (all_digits-canonical (before_colon x_auth) canonical) taken in
    colon-split x_auth colon
    ∙ ap (λ (r : Text). before_colon x_auth ++ b':' ∷ r) role
    ∙ ap (λ (b : Text). b ++ b':' ∷ role_codes ctx.role)
        (sym (digits-value (before_colon x_auth) canonical) ∙ ap digits (sym number))
  where
    all_digits-canonical : (t : Text) → is_canonical t ≡ true → all_digits t ≡ true
    all_digits-canonical [] h = refl
    all_digits-canonical (c ∷ t) h = ground arith
