-- ===== src/Base/Run.antt =====
-- What a piece of C code does: it returns a value, it ends the process (`exit(EXIT_FAILURE)` or a
-- failed `assert`), or it reads or writes outside an object (`fault`), where C defines nothing.
use telemetrics_client.Base.{◌≡◌, refl}

pub data Run {ℓ} (A : Type ℓ) : Type ℓ where
  done : A → Run A
  exit : Run A
  fault : Run A

infixl 5 ◌>>=◌
abbrev pub ◌>>=◌ {ℓ κ} : {A : Type ℓ} {B : Type κ} → Run A → (A → Run B) → Run B
done a >>= f = f a
exit >>= f = exit
fault >>= f = fault

pub >>=-eq-done {ℓ κ} :
    {A : Type ℓ} {B : Type κ} (m : Run A) (f : A → Run B) {b : B}
    → (m >>= f) ≡ done b
    → (a : A) × (m ≡ done a) × (f a ≡ done b)
>>=-eq-done (done a) f h = (a, refl, h)
>>=-eq-done exit f h = cc
>>=-eq-done fault f h = cc

pub bind_congr {ℓ κ} :
    {A : Type ℓ} {B : Type κ} (m : Run A) (f g : A → Run B)
    → ((a : A) → m ≡ done a → f a ≡ g a)
    → (m >>= f) ≡ (m >>= g)
bind_congr (done a) f g h = h a refl
bind_congr exit f g h = refl
bind_congr fault f g h = refl

pub bind_assoc {ℓ κ μ} :
    {A : Type ℓ} {B : Type κ} {C : Type μ} (m : Run A) (f : A → Run B) (g : B → Run C)
    → ((m >>= f) >>= g) ≡ (m >>= λ a. f a >>= g)
bind_assoc (done a) f g = refl
bind_assoc exit f g = refl
bind_assoc fault f g = refl

pub bind_done {ℓ} : {A : Type ℓ} (m : Run A) → (m >>= λ a. done a) ≡ m
bind_done (done a) = refl
bind_done exit = refl
bind_done fault = refl
