-- ===== src/Outcome.antt =====
-- How a C function ends: HRESULT codes of library/include/dn_common.h and dn_device.h as values,
-- and the two ends that the code has no code for.
pub mod All

pub data Hresult : Type 0 where
  e_fail e_accessdenied e_handle e_outofmemory e_invalidarg : Hresult
  badvartype typemismatch overflow badindex e_timeout e_too_much_data e_invalidpacket : Hresult

-- `ok` is S_OK with what the function wrote through its pointers. `fault` is an access outside
-- the object that a pointer points into. `stuck` is a model that ran out of fuel.
pub data Outcome {ℓ} (A : Type ℓ) : Type ℓ where
  ok : A → Outcome A
  err : Hresult → Outcome A
  fault : Outcome A
  stuck : Outcome A

-- A call, `if (FAILED(hr)) return hr;`, and the rest.
abbrev pub bind {ℓ κ} : {A : Type ℓ} {B : Type κ} → Outcome A → (A → Outcome B) → Outcome B
bind (ok a) f = f a
bind (err e) f = err e
bind fault f = fault
bind stuck f = stuck

-- A call whose error is looked at.
abbrev pub catch {ℓ κ} :
    {A : Type ℓ} {B : Type κ} → Outcome A → (Hresult → Outcome B) → (A → Outcome B) → Outcome B
catch (ok a) g f = f a
catch (err e) g f = g e
catch fault g f = fault
catch stuck g f = stuck
