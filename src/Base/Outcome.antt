-- ===== src/Base/Outcome.antt =====
-- Go's `error` values, results, and actions on a state that may fail.
use mathlib.Core.Path.{◌≡◌, refl, ap}
use mathlib.Core.Logic.{◌⊎◌, inl, inr}
use mathlib.Core.List.{◌++◌}
use gdrive_bot.Base.Text.{Str}

-- An error is a text, or another error marked by `NonRetryable` (internal/utils/retry.go).
pub data Error : Type 0 where
  plain : Str → Error
  non_retryable : Error → Error

-- err.Error()
unfoldable pub error_text : Error → Str
error_text (plain s) = s
error_text (non_retryable e) = error_text e

-- fmt.Errorf("prefix: %w", err)
unfoldable pub wrap : Str → Error → Error
unfolding error_text
wrap prefix e = plain (prefix ++ error_text e)

pub data Result {ℓ} (A : Type ℓ) : Type ℓ where
  ok : A → Result A
  err : Error → Result A

-- An action changes the state, and returns a value or an error; an error keeps the changes made so far.
abbrev pub Act : Type 0 → Type 0 → Type 0
Act W A = W → W × Result A

module _ {W A B : Type 0} where
  abbrev pub continue : W × Result A → (A → Act W B) → W × Result B
  continue (w, ok a) f = f a w
  continue (w, err e) f = (w, err e)

infixl 5 ◌>>=◌ ◌>>◌
abbrev pub ◌>>=◌ : {W A B : Type 0} → Act W A → (A → Act W B) → Act W B
◌>>=◌ m f w = continue (m w) f

abbrev pub ◌>>◌ : {W A B : Type 0} → Act W A → Act W B → Act W B
◌>>◌ m k w = continue (m w) (λ _. k)

abbrev pub pure : {W A : Type 0} → A → Act W A
pure a w = (w, ok a)

abbrev pub raise : {W A : Type 0} → Error → Act W A
raise e w = (w, err e)

-- An action's error, mapped as by `fmt.Errorf`.
abbrev pub map_error : {A : Type 0} → (Error → Error) → Result A → Result A
map_error f (ok a) = ok a
map_error f (err e) = err (f e)

pub Result-cases :
    {A : Type 0} (r : Result A) → ((a : A) × (r ≡ ok a)) ⊎ ((e : Error) × (r ≡ err e))
Result-cases (ok a) = inl (a, refl)
Result-cases (err e) = inr (e, refl)

-- A chain that succeeds succeeded in its first part, and then is its second part.
pub continue-ok :
    {W A B : Type 0} (p : W × Result A) (f : A → Act W B) {b : B}
    → (continue p f).1 ≡ ok b
    → (a : A) × (p.1 ≡ ok a) × (continue p f ≡ f a p.0)
continue-ok (w, ok a) f e = (a, refl, refl)
continue-ok (w, err x) f e = cc

pub ok_inj : {A : Type 0} {a b : A} → ok a ≡ ok b → a ≡ b
ok_inj {A} {a} {b} e = ap (λ r. elim r [ ok x ↦ x | err _ ↦ a ]) e
