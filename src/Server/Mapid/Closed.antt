-- ===== src/Server/Mapid/Closed.antt =====
-- The table of library/include/bCAPServer/bcap_mapid.h is closed: what releases an object is a
-- function of the table that releases objects.
use denso_ipc.Prelude.{
  ℕ, zero, suc, ◌≡◌, refl, Bool, true, false, ◌&&◌, List, [], ◌∷◌, Option, none, some, arith,
}
use denso_ipc.Server.Mapid.{Relation, keep, pop, push, map_id, entry_of}

releases : Option (Relation × Bool) → Bool
releases (some (pop, false)) = true
releases _ = false

is_released : Relation × Bool → Bool
is_released (push r, f) = releases (entry_of map_id r)
is_released _ = true

all_closed : List (Relation × Bool) → Bool
all_closed [] = true
all_closed (e ∷ es) = is_released e && all_closed es

table_closed : all_closed map_id ≡ true
unfolding all_closed is_released releases map_id entry_of
table_closed = refl

closed_at :
    (es : List (Relation × Bool)) (id : ℕ) (e : Relation × Bool)
    → all_closed es ≡ true
    → entry_of es id ≡ some e
    → is_released e ≡ true
unfolding all_closed entry_of
closed_at [] id e h k = cc
closed_at (d ∷ es) zero e h k = ground (arith)
closed_at (d ∷ es) (suc id) e h k = closed_at es id e (ground arith) k

releases-eq : (e : Option (Relation × Bool)) → releases e ≡ true → e ≡ some (pop, false)
unfolding releases
releases-eq none h = cc
releases-eq (some (keep, f)) h = cc
releases-eq (some (push r, f)) h = cc
releases-eq (some (pop, true)) h = cc
releases-eq (some (pop, false)) h = refl

-- The function that the server notes for an object which a function creates is in the table, takes
-- an object off the server's list, and answers without a value.
pub entry_of-push :
    (id r : ℕ) (f : Bool)
    → entry_of map_id id ≡ some (push r, f)
    → entry_of map_id r ≡ some (pop, false)
unfolding is_released
entry_of-push id r f h =
    releases-eq (entry_of map_id r) (closed_at map_id id (push r, f) table_closed h)
