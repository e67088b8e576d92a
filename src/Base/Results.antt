-- ===== src/Base/Results.antt =====
-- The exceptions of errors.py (with Python's own `ValueError`, `RuntimeError` and
-- `AssertionError`), and calls that may raise as values.
use mathlib.Core.Path.{◌≡◌, refl, ap, subst}
use mathlib.Core.Bool.{Bool, true, false}
use mathlib.Core.List.{List, [], ◌∷◌}
use memory_os.Base.Tests.{if◌then◌else◌}
use memory_os.Base.Lists.{All}
use mathlib.Core.Option.{Option, none, some}

-- The errors that end a call.
pub data Error : Type 0 where
  not_found invalid_transition conflict_detected : Error
  value_error key_error runtime_error : Error
  exact_tokenizer_required insufficient_budget : Error

-- What a call gives: the error that it raised, or its value.
pub data Result {ℓ} (V : Type ℓ) : Type ℓ where
  raise : Error → Result V
  ok : V → Result V

-- `session.get` with the `None` case raising.
abbrev pub expect {ℓ} : {V : Type ℓ} → Option V → Error → Result V
expect (some found) error = ok found
expect none error = raise error

-- The rest of a call, after a step.
infixl 5 ◌>>=◌
abbrev pub ◌>>=◌ {ℓ κ} : {V : Type ℓ} {W : Type κ} → Result V → (V → Result W) → Result W
raise error >>= rest = raise error
ok value >>= rest = rest value

-- `if not test: raise error`
abbrev pub require : Bool → Error → Result (Unit {0})
require test error = if test then ok tt else raise error

infixl 5 ◌>>◌
abbrev pub ◌>>◌ {ℓ} : {W : Type ℓ} → Result (Unit {0}) → Result W → Result W
check >> rest = check >>= λ done. rest

-- If a call returned, its first step did, and so did the rest on what the step gave.
pub >>=-eq-ok {ℓ κ} :
    {V : Type ℓ} {W : Type κ} (step : Result V) (rest : V → Result W) {result : W}
    → (step >>= rest) ≡ ok result
    → (value : V) × (step ≡ ok value) × (rest value ≡ ok result)
>>=-eq-ok (raise error) rest returned = cc
>>=-eq-ok (ok value) rest returned = (value, refl, returned)

pub ok-injective {ℓ} : {A : Type ℓ} {a b : A} → ok a ≡ ok b → a ≡ b
ok-injective h = cc

pub some-injective {ℓ} : {A : Type ℓ} {a b : A} → some a ≡ some b → a ≡ b
some-injective h = cc

-- A call that returned a pair returned its two parts.
pub ok_pair {ℓ κ} :
    {A : Type ℓ} {B : Type κ} {a c : A} {b d : B}
    → ◌≡◌ {A = Result (A × B)} (ok (a, b)) (ok (c, d))
    → (a ≡ c) × (b ≡ d)
ok_pair h = (ap (λ p. p.0) (ok-injective h), ap (λ p. p.1) (ok-injective h))

pub expect-eq-ok {ℓ} :
    {A : Type ℓ} (o : Option A) (e : Error) {a : A} → expect o e ≡ ok a → o ≡ some a
expect-eq-ok none e h = cc
expect-eq-ok (some b) e h = cc

-- What a call promises of the value that it returns.
abbrev pub Returns {ℓ κ} : {A : Type ℓ} → (A → Type κ) → Result A → Type κ
Returns P (ok a) = P a
Returns P (raise e) = Unit

pub Returns-bind {ℓ κ μ ν} :
    {A : Type ℓ} {B : Type κ} (P : A → Type μ) (Q : B → Type ν) (m : Result A) (f : A → Result B)
    → Returns P m
    → ((a : A) → P a → Returns Q (f a))
    → Returns Q (m >>= f)
Returns-bind P Q (ok a) f h k = k a h
Returns-bind P Q (raise e) f h k = tt

-- After a call of which nothing is needed but that it returned.
pub Returns-after {ℓ κ μ} :
    {A : Type ℓ} {B : Type κ} (Q : B → Type μ) (m : Result A) (f : A → Result B)
    → ((a : A) → m ≡ ok a → Returns Q (f a))
    → Returns Q (m >>= f)
Returns-after Q (ok a) f k = k a refl
Returns-after Q (raise e) f k = tt

pub Returns-of_eq {ℓ κ} :
    {A : Type ℓ} (P : A → Type κ) (m : Result A) → ((a : A) → m ≡ ok a → P a) → Returns P m
Returns-of_eq P (ok a) k = k a refl
Returns-of_eq P (raise e) k = tt

pub Returns-eq-ok {ℓ κ} :
    {A : Type ℓ} (P : A → Type κ) (m : Result A) {a : A} → Returns P m → m ≡ ok a → P a
Returns-eq-ok P (ok b) h e = subst P (ok-injective e) h
Returns-eq-ok P (raise x) h e = cc

-- `for x in xs: step(x)`
unfoldable pub for_each {ℓ κ} :
    {A : Type ℓ} {S : Type κ} → (S → A → Result S) → List A → S → Result S
for_each step [] s = ok s
for_each step (x ∷ xs) s = step s x >>= for_each step xs

pub Returns-for_each {ℓ κ μ} :
    {A : Type ℓ} {S : Type κ} (P : S → Type μ) (step : S → A → Result S)
    → ((s : S) (x : A) → P s → Returns P (step s x))
    → (xs : List A) (s : S) → P s
    → Returns P (for_each step xs s)
unfolding for_each
Returns-for_each P step keeps [] s h = h
Returns-for_each P step keeps (x ∷ xs) s h =
    Returns-bind P P (step s x) (for_each step xs) (keeps s x h)
      (λ a k. Returns-for_each P step keeps xs a k)

-- A loop over elements of which something is known.
pub Returns-for_each_All {ℓ κ μ ν} :
    {A : Type ℓ} {S : Type κ} (P : S → Type μ) (M : A → Type ν) (step : S → A → Result S)
    → ((s : S) (x : A) → M x → P s → Returns P (step s x))
    → (xs : List A) (s : S) → All M xs
    → P s
    → Returns P (for_each step xs s)
unfolding for_each
Returns-for_each_All P M step keeps [] s all h = h
Returns-for_each_All P M step keeps (x ∷ xs) s (m, all) h =
    Returns-bind P P (step s x) (for_each step xs) (keeps s x m h)
      (λ a k. Returns-for_each_All P M step keeps xs a all k)

pub Returns-if {ℓ κ} :
    {A : Type ℓ} (P : A → Type κ) (b : Bool) (m k : Result A)
    → Returns P m
    → Returns P k
    → Returns P (if b then m else k)
Returns-if P true m k h g = h
Returns-if P false m k h g = g

-- A row found or not.
pub Returns-option {ℓ κ μ} :
    {A : Type ℓ} {B : Type κ} (P : B → Type μ) (o : Option A) (f : A → Result B) (g : Result B)
    → ((a : A) → Returns P (f a))
    → Returns P g
    → Returns P (elim o [ some a ↦ f a | none ↦ g ])
Returns-option P (some a) f g h k = h a
Returns-option P none f g h k = k

pub require-eq-ok : (b : Bool) (e : Error) {u : Unit {0}} → require b e ≡ ok u → b ≡ true
require-eq-ok true e h = refl
require-eq-ok false e h = cc
