-- ===== src/Prelude/Results.antt =====
-- `Result<T, E>`, and the `?` operator as the bind of a `do` block.
use mathlib.Core.Path.{◌≡◌, refl}
use mathlib.Core.Bool.{Bool, true, false}
use mathlib.Core.List.{List, [], ◌∷◌}
use mathlib.Core.Logic.{◌⊎◌, inl, inr}
use feather_mesh.Prelude.Lists.{All}
use mathlib.Core.Option.{Option, none, some}

pub data Result {ℓ} (E : Type 0) (A : Type ℓ) : Type ℓ where
  ok : A → Result E A
  err : E → Result E A

infixl 5 ◌>>=◌ ◌>>◌
abbrev pub ◌>>=◌ {ℓ κ} :
    {E : Type 0} {A : Type ℓ} {B : Type κ} → Result E A → (A → Result E B) → Result E B
ok a >>= f = f a
err e >>= f = err e

abbrev pub ◌>>◌ {κ} : {E : Type 0} {B : Type κ} → Result E (Unit {0}) → Result E B → Result E B
m >> k = m >>= λ _. k

-- `if !b { return Err(e) }`
abbrev pub guard : {E : Type 0} → Bool → E → Result E (Unit {0})
guard true e = ok tt
guard false e = err e

-- `Option::ok_or`
abbrev pub ok_or {ℓ} : {E : Type 0} {A : Type ℓ} → Option A → E → Result E A
ok_or none e = err e
ok_or (some a) e = ok a

-- `for x in xs { f(x)?; }`
abbrev pub for_each {ℓ} :
    {E : Type 0} {A : Type ℓ} → (A → Result E (Unit {0})) → List A → Result E (Unit {0})
for_each f [] = ok tt
for_each f (x ∷ xs) = f x >> for_each f xs

module _ {ℓ κ} {E : Type 0} {A : Type ℓ} {B : Type κ} where
  -- Inversion of a successful chain.
  pub >>=-eq-ok :
      (m : Result E A) (f : A → Result E B) (b : B)
      → (m >>= f) ≡ ok b
      → (a : A) × (m ≡ ok a) × (f a ≡ ok b)
  >>=-eq-ok (ok a) f b h = (a, refl, h)
  >>=-eq-ok (err e) f b h = cc

pub >>-eq-ok {κ} :
    {E : Type 0} {B : Type κ} (m : Result E (Unit {0})) (k : Result E B) (b : B)
    → (m >> k) ≡ ok b
    → (m ≡ ok tt) × (k ≡ ok b)
>>-eq-ok (ok tt) k b h = (refl, h)
>>-eq-ok (err e) k b h = cc

pub guard-eq-ok : {E : Type 0} (b : Bool) (e : E) → guard b e ≡ ok tt → b ≡ true
guard-eq-ok true e h = refl
guard-eq-ok false e h = cc

pub Result-cases {ℓ} :
    {E : Type 0} {A : Type ℓ} (r : Result E A) → ((a : A) × (r ≡ ok a)) ⊎ ((e : E) × (r ≡ err e))
Result-cases (ok a) = inl (a, refl)
Result-cases (err e) = inr (e, refl)

pub for_each-eq-ok {ℓ} :
    {E : Type 0} {A : Type ℓ} (f : A → Result E (Unit {0})) (xs : List A)
    → for_each f xs ≡ ok tt
    → All (λ x. f x ≡ ok tt) xs
for_each-eq-ok f [] h = tt
for_each-eq-ok f (x ∷ xs) h =
    let (p, q) = >>-eq-ok (f x) (for_each f xs) tt h in (p, for_each-eq-ok f xs q)

pub ok-injective {ℓ} :
    {E : Type 0} {A : Type ℓ} {a b : A} → ◌≡◌ {A = Result E A} (ok a) (ok b) → a ≡ b
ok-injective h = cc
