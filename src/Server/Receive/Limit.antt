-- ===== src/Server/Receive/Limit.antt =====
-- The limit of objects in receive_execute of library/src/bCAPServer/bcap_server.c is tested for the functions that the table
-- of library/include/bCAPServer/bcap_mapid.h has create one.
use denso_ipc.Prelude.{
  ℕ, zero, suc, ◌+◌, ◌≤◌, ◌≡◌, refl, ap, ◌∙◌, ◌&&◌, Bool, true, false, List, [], ◌∷◌, Option, none,
  some, length, arith,
}
use denso_ipc.Server.Mapid.{Relation, keep, pop, push, map_id, entry_of}
use denso_ipc.Server.Receive.{creates}

-- Whether an entry of the table names a function that releases what the function creates.
unfoldable pub is_push : Option (Relation × Bool) → Bool
is_push none = false
is_push (some (keep, b)) = false
is_push (some (pop, b)) = false
is_push (some (push r, b)) = true

same : Bool → Bool → Bool
same true b = b
same false true = false
same false false = true

all_same : ℕ → List (Relation × Bool) → Bool
all_same k [] = true
all_same k (e ∷ es) = same (creates k) (is_push (some e)) && all_same (suc k) es

table_same : all_same 0 map_id ≡ true
unfolding all_same same creates is_push map_id
table_same = refl

same-eq : (a b : Bool) → same a b ≡ true → a ≡ b
unfolding same
same-eq true true h = refl
same-eq true false h = cc
same-eq false true h = cc
same-eq false false h = refl

creates-beyond : (id : ℕ) → 138 ≤ id → creates id ≡ false
unfolding creates
creates-beyond id h = ground arith

same_at :
    (es : List (Relation × Bool)) (k i : ℕ)
    → all_same k es ≡ true
    → 138 ≤ k + length es
    → creates (k + i) ≡ is_push (entry_of es i)
unfolding all_same entry_of is_push
same_at [] k i h l = creates-beyond (k + i) (omega (arith, l))
same_at (e ∷ es) k zero h l =
    ap creates {x = k + 0} {y = k} (omega arith)
    ∙ same-eq (creates k) (is_push (some e)) (ground arith)
same_at (e ∷ es) k (suc i) h l =
    ap creates {x = k + suc i} {y = suc k + i} (omega arith)
    ∙ same_at es (suc k) i (ground arith) (omega (arith, l))

-- The functions for which receive_execute tests the limit of objects are those for which the table of functions has
-- an object pushed.
pub creates-push : (id : ℕ) → creates id ≡ is_push (entry_of map_id id)
unfolding map_id
creates-push id =
    ap creates {x = id} {y = 0 + id} (omega arith) ∙ same_at map_id 0 id table_same (omega arith)
