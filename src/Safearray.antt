-- ===== src/Safearray.antt =====
-- SAFEARRAY as a struct: SafeArrayCreateVector and the functions that read it, of
-- library/src/dn_common.c.
use denso_ipc.Prelude.{
  ℕ, zero, suc, ◌+◌, ◌-◌, ◌%◌, ◌^◌, ◌<◌, ◌≡◌, refl, ap, subst, sym, ◌==◌, ltb, ◌||◌, if◌then◌else◌,
  Bool, List, [], ◌∷◌, Option, none, some, arith,
}
use denso_ipc.Outcome.{Outcome, ok, err, fault, e_invalidarg, badindex}
use denso_ipc.Variant.{create_vector, element_size}

-- `l_lbound` is an `int32_t` as 32 bits.
pub record Safearraybound : Type 0 where
  pub c_elements : ℕ
  pub l_lbound : ℕ

-- `room` is the bytes behind `pvData`.
pub record Safearray : Type 0 where
  pub c_dims : ℕ
  pub vt : ℕ
  pub cb_elements : ℕ
  pub room : ℕ
  pub rgsabound : List Safearraybound

-- `cbElements` stays 0 where there are no elements.
unfoldable pub size_of : ℕ → ℕ → ℕ
size_of vt n = if n == 0 then 0 else elim (element_size vt) [ none ↦ 0 | some sz ↦ sz ]

unfoldable pub new_vector : ℕ → ℕ → ℕ → Option ℕ → Option Safearray
new_vector vt l n none = none
new_vector vt l n (some room) = some (record {
  c_dims = 1;
  vt = vt;
  cb_elements = size_of vt n;
  room = room;
  rgsabound = record { c_elements = n; l_lbound = l } ∷ [];
})

unfoldable pub safe_array_create_vector : (ℕ → Bool) → ℕ → ℕ → ℕ → Option Safearray
safe_array_create_vector malloc vt l n = new_vector vt l n (create_vector malloc vt n)

unfoldable pub safe_array_get_dim : Option Safearray → ℕ
safe_array_get_dim none = 0
safe_array_get_dim (some psa) = psa.c_dims

unfoldable pub safe_array_get_elemsize : Option Safearray → ℕ
safe_array_get_elemsize none = 0
safe_array_get_elemsize (some psa) = psa.cb_elements

-- `rgsabound[i]`.
unfoldable pub bound_at : List Safearraybound → ℕ → (Safearraybound → ℕ) → Outcome ℕ
bound_at [] i f = fault
bound_at (b ∷ bs) zero f = ok (f b)
bound_at (b ∷ bs) (suc i) f = bound_at bs i f

-- The guards of the two functions on bounds; the place for the result is there.
unfoldable pub at_dim : Option Safearray → ℕ → (Safearraybound → ℕ) → Outcome ℕ
at_dim none n_dim f = err e_invalidarg
at_dim (some psa) n_dim f =
    if (n_dim == 0) || ltb psa.c_dims n_dim
    then err badindex
    else bound_at psa.rgsabound (n_dim - 1) f

unfoldable pub safe_array_get_lbound : Option Safearray → ℕ → Outcome ℕ
safe_array_get_lbound psa n_dim = at_dim psa n_dim (λ b. b.l_lbound)

-- The sum is a uint32_t.
unfoldable pub safe_array_get_ubound : Option Safearray → ℕ → Outcome ℕ
safe_array_get_ubound psa n_dim =
    at_dim psa n_dim (λ b. (b.c_elements + b.l_lbound + (2 ^ 32 - 1)) % 2 ^ 32)

unfoldable pub safe_array_get_vartype : Option Safearray → Outcome ℕ
safe_array_get_vartype none = err e_invalidarg
safe_array_get_vartype (some psa) = ok psa.vt

or_else : Option Safearray → Safearray → Safearray
or_else none psa = psa
or_else (some psa') psa = psa'

IsThere : Option Safearray → Type 0
IsThere none = ⊥
IsThere (some psa) = Unit

new_vector-some :
    (vt l n : ℕ) (room : Option ℕ) (psa : Safearray)
    → new_vector vt l n room ≡ some psa
    → (psa.c_dims ≡ 1)
      × (psa.vt ≡ vt)
      × (psa.rgsabound ≡ record { c_elements = n; l_lbound = l } ∷ [])
unfolding new_vector or_else IsThere
new_vector-some vt l n none psa e = absurd (subst IsThere (sym e) tt)
new_vector-some vt l n (some r) psa e = (
  ap (λ o. (or_else o psa).c_dims) (sym e),
  ap (λ o. (or_else o psa).vt) (sym e),
  ap (λ o. (or_else o psa).rgsabound) (sym e),
)

-- If SafeArrayCreateVector returns an array for `n` elements from `l` on, both below 2 ^ 32, it has
-- one dimension and the type, its lower bound is `l`, and from there to its upper bound there are `n`
-- elements modulo 2 ^ 32.
pub safe_array_create_vector-bounds :
    (malloc : ℕ → Bool) (vt l n : ℕ) (psa : Safearray)
    → l < 2 ^ 32
    → n < 2 ^ 32
    → safe_array_create_vector malloc vt l n ≡ some psa
    → (safe_array_get_dim (some psa) ≡ 1)
      × (safe_array_get_vartype (some psa) ≡ ok vt)
      × (safe_array_get_lbound (some psa) 1 ≡ ok l)
      × (u : ℕ) × (safe_array_get_ubound (some psa) 1 ≡ ok u)
      × ((u + 1 + (2 ^ 32 - l)) % 2 ^ 32 ≡ n)
unfolding safe_array_create_vector safe_array_get_dim safe_array_get_vartype safe_array_get_lbound
    safe_array_get_ubound at_dim bound_at
safe_array_create_vector-bounds malloc vt l n psa small few e = (
  facts.0,
  ap ok facts.1,
  rw (facts.0, facts.2) refl,
  (n + l + (2 ^ 32 - 1)) % 2 ^ 32,
  rw (facts.0, facts.2) refl,
  omega (arith, small, few),
)
  where
    facts :
        (psa.c_dims ≡ 1)
        × (psa.vt ≡ vt)
        × (psa.rgsabound ≡ record { c_elements = n; l_lbound = l } ∷ [])
    facts = new_vector-some vt l n (create_vector malloc vt n) psa e
