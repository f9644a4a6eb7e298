-- ===== src/Outcome/All.antt =====
-- What holds of whatever a C function returns.
use denso_ipc.Prelude.{◌≡◌, subst, Bool, true, false, if◌then◌else◌}
use denso_ipc.Outcome.{Hresult, Outcome, ok, err, fault, stuck, bind, catch}

-- What comes out, if anything does, satisfies a predicate.
unfoldable pub All {ℓ κ} : {A : Type ℓ} → (A → Type κ) → Outcome A → Type κ
All P (ok a) = P a
All P (err e) = Unit
All P fault = Unit
All P stuck = Unit

pub bind-All {ℓ κ μ ν} :
    {A : Type ℓ} {B : Type κ} (P : A → Type μ) (Q : B → Type ν) (o : Outcome A) (f : A → Outcome B)
    → All P o
    → ((a : A) → P a → All Q (f a))
    → All Q (bind o f)
unfolding All
bind-All P Q (ok a) f h g = g a h
bind-All P Q (err e) f h g = tt
bind-All P Q fault f h g = tt
bind-All P Q stuck f h g = tt

pub catch-All {ℓ κ μ ν} :
    {A : Type ℓ} {B : Type κ} (P : A → Type μ) (Q : B → Type ν) (o : Outcome A)
    (g : Hresult → Outcome B) (f : A → Outcome B)
    → All P o
    → ((e : Hresult) → All Q (g e))
    → ((a : A) → P a → All Q (f a))
    → All Q (catch o g f)
unfolding All
catch-All P Q (ok a) g f h k l = l a h
catch-All P Q (err e) g f h k l = k e
catch-All P Q fault g f h k l = tt
catch-All P Q stuck g f h k l = tt

pub if-All {ℓ κ} :
    {A : Type ℓ} (P : A → Type κ) (b : Bool) (x y : Outcome A)
    → All P x
    → All P y
    → All P (if b then x else y)
if-All P true x y h k = h
if-All P false x y h k = k

-- Every outcome satisfies what everything does.
pub any-All {ℓ κ} : {A : Type ℓ} (P : A → Type κ) (o : Outcome A) → ((a : A) → P a) → All P o
unfolding All
any-All P (ok a) h = h a
any-All P (err e) h = tt
any-All P fault h = tt
any-All P stuck h = tt

-- A weaker predicate.
pub map-All {ℓ κ μ} :
    {A : Type ℓ} (P : A → Type κ) (Q : A → Type μ) (o : Outcome A)
    → All P o
    → ((a : A) → P a → Q a)
    → All Q o
unfolding All
map-All P Q (ok a) h k = k a h
map-All P Q (err e) h k = tt
map-All P Q fault h k = tt
map-All P Q stuck h k = tt

pub ok-All {ℓ κ} : {A : Type ℓ} (P : A → Type κ) (o : Outcome A) (a : A) → o ≡ ok a → All P o → P a
unfolding All
ok-All P o a e h = subst (All P) e h
