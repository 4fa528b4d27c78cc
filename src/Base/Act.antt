-- ===== src/Base/Act.antt =====
-- Calls on stores that anybody may change: a call finds a world, and leaves an answer and a world.
use harness_core.Base.{◌≡◌, refl}
use harness_core.Base.Result.{Result, ok, err}

abbrev pub Act {ℓ κ} : Type ℓ → Type κ → Type (ℓ ⊔ κ)
Act W A = W → Result A × W

infixl 5 ◌>>=◌ ◌>>◌
abbrev pub then_do {ℓ κ μ} :
    {W : Type ℓ} {A : Type κ} {B : Type μ} → Result A × W → (A → Act W B) → Result B × W
then_do (ok a, w) next = next a w
then_do (err e, w) next = (err e, w)

abbrev pub ◌>>=◌ {ℓ κ μ} :
    {W : Type ℓ} {A : Type κ} {B : Type μ} → Act W A → (A → Act W B) → Act W B
first >>= next = λ w. then_do (first w) next

abbrev pub ◌>>◌ {ℓ κ μ} : {W : Type ℓ} {A : Type κ} {B : Type μ} → Act W A → Act W B → Act W B
first >> next = first >>= λ _. next

-- An answer that is known, without a call.
abbrev pub give {ℓ κ} : {W : Type ℓ} {A : Type κ} → Result A → Act W A
give r w = (r, w)

abbrev pub done {ℓ κ} : {W : Type ℓ} {A : Type κ} → A → Act W A
done a w = (ok a, w)

module _ {ℓ κ μ} {W : Type ℓ} {A : Type κ} {B : Type μ} where
  -- A chain of calls that succeeds went through each of its calls.
  pub then-ok :
      (r : Result A × W) (next : A → Act W B) {b : B} {w' : W}
      → then_do r next ≡ (ok b, w')
      → (a : A) × (v : W) × (r ≡ (ok a, v)) × (next a v ≡ (ok b, w'))
  then-ok (ok a, v) next h = (a, v, refl, h)
  then-ok (err e, v) next h = cc

module _ {ℓ κ} {W : Type ℓ} {A : Type κ} where
  -- An answer that is given is the one that was known, and changes nothing.
  pub give-ok : (r : Result A) {a : A} {w w' : W} → give r w ≡ (ok a, w') → (r ≡ ok a) × (w ≡ w')
  give-ok (ok b) h = (cc, cc)
  give-ok (err e) h = (cc, cc)
