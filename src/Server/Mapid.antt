-- ===== src/Server/Mapid.antt =====
-- library/include/bCAPServer/bcap_mapid.h: what the server knows of each function.
pub mod Closed
use denso_ipc.Prelude.{ℕ, zero, suc, Bool, true, false, List, [], ◌∷◌, ◌++◌, Option, none, some}

-- relation_id: 0, -1, or the function that releases the object which this one creates.
pub data Relation : Type 0 where
  keep pop : Relation
  push : ℕ → Relation

abbrev service_map : List (Relation × Bool)
service_map = (push 2, false) ∷ (pop, false) ∷ []

abbrev controller_map : List (Relation × Bool)
controller_map =
    (push 4, true)
    ∷ (pop, false)
    ∷ (push 36, true)
    ∷ (push 61, true)
    ∷ (push 84, true)
    ∷ (push 99, true)
    ∷ (push 111, true)
    ∷ (push 127, true)
    ∷ (keep, true)
    ∷ (keep, true)
    ∷ (keep, true)
    ∷ (keep, true)
    ∷ (keep, true)
    ∷ (keep, true)
    ∷ (keep, true)
    ∷ (push 137, true)
    ∷ (keep, true)
    ∷ (keep, true)
    ∷ (keep, true)
    ∷ (keep, true)
    ∷ (keep, false)
    ∷ (keep, true)
    ∷ (keep, false)
    ∷ []

abbrev extension_map : List (Relation × Bool)
extension_map =
    (push 111, true)
    ∷ (keep, true)
    ∷ (keep, true)
    ∷ (keep, true)
    ∷ (keep, true)
    ∷ (keep, true)
    ∷ (keep, true)
    ∷ (keep, false)
    ∷ (keep, true)
    ∷ (keep, false)
    ∷ (pop, false)
    ∷ []

abbrev file_map : List (Relation × Bool)
file_map =
    (push 61, true)
    ∷ (push 111, true)
    ∷ (keep, true)
    ∷ (keep, true)
    ∷ (keep, true)
    ∷ (keep, false)
    ∷ (keep, false)
    ∷ (keep, false)
    ∷ (keep, true)
    ∷ (keep, true)
    ∷ (keep, true)
    ∷ (keep, true)
    ∷ (keep, true)
    ∷ (keep, true)
    ∷ (keep, true)
    ∷ (keep, true)
    ∷ (keep, false)
    ∷ (keep, true)
    ∷ (keep, true)
    ∷ (keep, true)
    ∷ (keep, true)
    ∷ (keep, false)
    ∷ (keep, true)
    ∷ (keep, false)
    ∷ (pop, false)
    ∷ []

abbrev robot_map : List (Relation × Bool)
robot_map =
    (push 111, true)
    ∷ (keep, true)
    ∷ (keep, true)
    ∷ (keep, false)
    ∷ (keep, false)
    ∷ (keep, false)
    ∷ (keep, false)
    ∷ (keep, false)
    ∷ (keep, false)
    ∷ (keep, false)
    ∷ (keep, false)
    ∷ (keep, false)
    ∷ (keep, false)
    ∷ (keep, false)
    ∷ (keep, false)
    ∷ (keep, true)
    ∷ (keep, true)
    ∷ (keep, true)
    ∷ (keep, true)
    ∷ (keep, false)
    ∷ (keep, true)
    ∷ (keep, false)
    ∷ (pop, false)
    ∷ []

abbrev task_map : List (Relation × Bool)
task_map =
    (push 111, true)
    ∷ (keep, true)
    ∷ (keep, true)
    ∷ (keep, false)
    ∷ (keep, false)
    ∷ (keep, false)
    ∷ (keep, true)
    ∷ (keep, true)
    ∷ (keep, true)
    ∷ (keep, true)
    ∷ (keep, true)
    ∷ (keep, false)
    ∷ (keep, true)
    ∷ (keep, false)
    ∷ (pop, false)
    ∷ []

abbrev variable_map : List (Relation × Bool)
variable_map =
    (keep, true)
    ∷ (keep, true)
    ∷ (keep, false)
    ∷ (keep, true)
    ∷ (keep, true)
    ∷ (keep, true)
    ∷ (keep, true)
    ∷ (keep, false)
    ∷ (keep, true)
    ∷ (keep, false)
    ∷ (keep, true)
    ∷ (pop, false)
    ∷ []

abbrev command_map : List (Relation × Bool)
command_map =
    (keep, false)
    ∷ (keep, false)
    ∷ (keep, true)
    ∷ (keep, false)
    ∷ (keep, true)
    ∷ (keep, true)
    ∷ (keep, false)
    ∷ (keep, true)
    ∷ (keep, true)
    ∷ (keep, true)
    ∷ (keep, true)
    ∷ (keep, true)
    ∷ (keep, true)
    ∷ (keep, true)
    ∷ (keep, false)
    ∷ (pop, false)
    ∷ []

abbrev message_map : List (Relation × Bool)
message_map =
    (keep, false)
    ∷ (keep, false)
    ∷ (keep, true)
    ∷ (keep, true)
    ∷ (keep, true)
    ∷ (keep, true)
    ∷ (keep, true)
    ∷ (keep, true)
    ∷ (keep, true)
    ∷ (pop, false)
    ∷ []

-- m_map_id, in the order of the numbers of library/include/bcap_funcid.h.
unfoldable pub map_id : List (Relation × Bool)
map_id =
    (keep, false)
    ∷ (service_map
        ++ (controller_map
            ++ (extension_map
                ++ (file_map
                    ++ (robot_map
                        ++ (task_map ++ (variable_map ++ (command_map ++ message_map))))))))

-- `m_map_id[id]`.
unfoldable pub entry_of : List (Relation × Bool) → ℕ → Option (Relation × Bool)
entry_of [] id = none
entry_of (e ∷ es) zero = some e
entry_of (e ∷ es) (suc id) = entry_of es id
