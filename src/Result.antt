-- ===== src/Result.antt =====
-- Go's `error` and the pairs `(T, error)`. An error is kept as the format that `fmt.Errorf` was
-- given, with the text of its `%s` or `%f` argument and the error that it wraps with `%w`.
use kite_mcp_eventsourcing.Prelude.{
  String, Bool, true, false, Option, none, some, ◌≡◌, refl, ◌⊎◌, inl, inr,
}

pub data Error : Type 0 where
  message : String → Error
  formatted : String → String → Error
  wrapped : String → Error → Error
  formatted_wrapped : String → String → Error → Error

pub data Result {ℓ} (A : Type ℓ) : Type ℓ where
  ok : A → Result A
  err : Error → Result A

infixl 5 ◌>>=◌
abbrev pub ◌>>=◌ {ℓ κ} : {A : Type ℓ} {B : Type κ} → Result A → (A → Result B) → Result B
ok a >>= f = f a
err e >>= f = err e

-- `if err != nil { return fmt.Errorf(format, err) }`
abbrev pub wrap {ℓ} : {A : Type ℓ} → String → Result A → Result A
wrap format (ok a) = ok a
wrap format (err e) = err (wrapped format e)

-- `if err := check; err != nil { return f(err) }`, and the rest of the function
unfoldable pub on_error {ℓ} : {A : Type ℓ} → Option Error → (Error → A) → A → A
on_error none f rest = rest
on_error (some e) f rest = f e

-- `if test { return result }`, and the rest of the function
unfoldable pub return_if {ℓ} : {A : Type ℓ} → Bool → A → A → A
return_if true result rest = result
return_if false result rest = rest

-- What holds of both ways out, each under its test, holds of the whole.
pub return_if_rule {ℓ κ} :
    {A : Type ℓ} (P : A → Type κ) (test : Bool) (result rest : A)
    → (test ≡ true → P result)
    → (test ≡ false → P rest)
    → P (return_if test result rest)
unfolding return_if
return_if_rule P true result rest px py = px refl
return_if_rule P false result rest px py = py refl

pub on_error_rule {ℓ κ} :
    {A : Type ℓ} (P : A → Type κ) (check : Option Error) (f : Error → A) (rest : A)
    → ((e : Error) → P (f e))
    → (check ≡ none → P rest)
    → P (on_error check f rest)
unfolding on_error
on_error_rule P none f rest pf pr = pr refl
on_error_rule P (some e) f rest pf pr = pf e

-- A chain that succeeds has a first step that does.
pub >>=-eq-ok {ℓ κ} :
    {A : Type ℓ} {B : Type κ} (first : Result A) (rest : A → Result B) {out : B}
    → (first >>= rest) ≡ ok out
    → (mid : A) × (first ≡ ok mid) × (rest mid ≡ ok out)
>>=-eq-ok (ok mid) rest done = (mid, refl, done)
>>=-eq-ok (err reason) rest done = cc

pub Result-cases {ℓ} :
    {A : Type ℓ} (r : Result A) → ((a : A) × (r ≡ ok a)) ⊎ ((e : Error) × (r ≡ err e))
Result-cases (ok a) = inl (a, refl)
Result-cases (err e) = inr (e, refl)

pub ok-injective {ℓ} : {A : Type ℓ} {a b : A} → ok a ≡ ok b → a ≡ b
ok-injective h = cc

pub err-ne-ok {ℓ} : {A : Type ℓ} {e : Error} {a : A} → err e ≡ ok a → ⊥
err-ne-ok h = cc
