-- ===== src/Server/Objects.antt =====
-- The objects of a connection, library/src/bCAPServer/bcap_server.c: the list behind `stack`, the
-- latest first, with its counter.
use denso_ipc.Prelude.{
  ℕ, zero, suc, ◌+◌, ◌-◌, ◌≤◌, ◌≡◌, refl, sym, ap, subst, ◌∙◌, ◌⊎◌, ◌==◌, leb, ◌&&◌, if◌then◌else◌,
  Bool, List, [], ◌∷◌, Option, none, some, length, arith, Bool-cases, inl, inr,
}
use denso_ipc.Codes.{s_ok, e_max_object}

-- VEC_OBJECT
pub record Object : Type 0 where
  pub id : ℕ
  pub h_obj : ℕ

pub record Objects : Type 0 where
  pub num_object : ℕ
  pub stack : List Object

abbrev pub object_max : ℕ
object_max = 1000

unfoldable pub push_vector : Objects → Object → ℕ × Objects
push_vector v o =
    if leb object_max v.num_object
    then (e_max_object, v)
    else (s_ok, record { num_object = v.num_object + 1; stack = o ∷ v.stack })

abbrev put_back : Object → Option (Object × List Object) → Option (Object × List Object)
put_back o none = none
put_back o (some (p, ps)) = some (p, o ∷ ps)

-- The object at an index below the counter, and the list without it.
unfoldable pub take_at : ℕ → ℕ → List Object → Option (Object × List Object)
take_at zero index stack = none
take_at (suc n) index [] = none
take_at (suc n) zero (o ∷ os) = some (o, os)
take_at (suc n) (suc index) (o ∷ os) = put_back o (take_at n index os)

abbrev popped : ℕ → Option (Object × List Object) → Option (Object × Objects)
popped n none = none
popped n (some (o, os)) = some (o, record { num_object = n - 1; stack = os })

-- None for E_HANDLE.
unfoldable pub pop_vector : Objects → ℕ → Option (Object × Objects)
pop_vector v index = popped v.num_object (take_at v.num_object index v.stack)

abbrev pub is_object : ℕ → ℕ → Object → Bool
is_object id h o = (o.id == id) && (o.h_obj == h)

-- The first index below the counter with the function and the handle, none for -1.
unfoldable pub search_from : ℕ → ℕ → ℕ → ℕ → List Object → Option ℕ
search_from zero i id h stack = none
search_from (suc n) i id h [] = none
search_from (suc n) i id h (o ∷ os) =
    let later = search_from n (i + 1) id h os in if is_object id h o then some i else later

unfoldable pub search_vector : Objects → ℕ → ℕ → Option ℕ
unfolding search_from
search_vector v id h = search_from v.num_object 0 id h v.stack

-- The counter counts the objects, and there are at most 1000.
pub record IsCounted (v : Objects) : Type 0 where
  pub counted : v.num_object ≡ length v.stack
  pub bounded : v.num_object ≤ object_max

pub push_vector-IsCounted : (v : Objects) (o : Object) → IsCounted v → IsCounted (push_vector v o).1
unfolding push_vector
push_vector-IsCounted v o h = ground arith

-- The list without the latest object of a function and a handle.
unfoldable pub erase : ℕ → ℕ → List Object → List Object
erase id h [] = []
erase id h (o ∷ os) = let later = erase id h os in if is_object id h o then os else o ∷ later

-- `index >= 0`: the object is popped and freed.
abbrev taken : Objects → Option (Object × Objects) → Objects
taken v none = v
taken v (some (o, v')) = v'

abbrev pub pop_found : Objects → Option ℕ → Objects
pop_found v none = v
pop_found v (some index) = taken v (pop_vector v index)

-- The pop of receive_execute: search_vector, and pop_vector at the index it finds.
unfoldable pub release_object : ℕ → ℕ → Objects → Objects
release_object id h v = pop_found v (search_vector v id h)

-- What a search finds can be taken, and leaves the list without it.
Found : ℕ → ℕ → ℕ → List Object → Type 0
Found i id h os =
    ((search_from (length os) i id h os ≡ none) × (erase id h os ≡ os))
    ⊎ ((k : ℕ) × (o : Object) × (search_from (length os) i id h os ≡ some (i + k))
        × (take_at (length os) k os ≡ some (o, erase id h os))
        × (length os ≡ suc (length (erase id h os))))

search_from-Found : (i id h : ℕ) (os : List Object) → Found i id h os
unfolding Found search_from take_at erase
search_from-Found i id h [] = inl (refl, refl)
search_from-Found i id h (o ∷ os) = elim (Bool-cases (is_object id h o)) [
  | inl yes_ ↦ inr (0, o, rw yes_ (ap some (omega arith)), rw yes_ refl, rw yes_ refl)
  | inr no_ ↦ elim (search_from-Found (i + 1) id h os) [
    | inl (e, f) ↦ inl (rw no_ e, rw no_ (ap (λ l. o ∷ l) f))
    | inr (k, p, e, f, g) ↦
        inr (suc k, p, rw no_ (e ∙ ap some (omega arith)), rw (no_, f) refl, rw no_ (ap suc g))
  ]
]

-- Where the counter is right, releasing an object takes the latest one with the function and the
-- handle off the list, if there is one, keeps the order of the others, and the counter stays right.
pub release_object-erase :
    (id h : ℕ) (v : Objects)
    → IsCounted v
    → ((release_object id h v).stack ≡ erase id h v.stack) × IsCounted (release_object id h v)
unfolding release_object search_vector pop_vector Found
release_object-erase id h v c = elim (search_from-Found 0 id h v.stack) [
  | inl (e, f) ↦ rw (counter (λ n. search_from n 0 id h v.stack ≡ none) e) (sym f, c)
  | inr (k, o, e, f, g) ↦
      rw
        (
          counter (λ n. search_from n 0 id h v.stack ≡ some k) (e ∙ ap some (omega arith)),
          counter (λ n. take_at n k v.stack ≡ some (o, erase id h v.stack)) f,
        )
        (refl, record { counted = omega (arith, c.counted, g); bounded = omega (arith, c.bounded) })
]
  where
    counter : (P : ℕ → Type 0) → P (length v.stack) → P v.num_object
    counter P = subst P (sym c.counted)
