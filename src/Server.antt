-- ===== src/Server.antt =====
-- The b-CAP server, library/src/bCAPServer/bcap_server.c: the table of functions, the objects of a
-- connection, and the call of a function.
pub mod Mapid
pub mod Objects
pub mod Receive
pub mod Register
mod Tests
use denso_ipc.Prelude.{
  ℕ, zero, suc, ◌+◌, ◌-◌, ◌==◌, ltb, leb, ◌&&◌, if◌then◌else◌, Bool, true, false, List, [], ◌∷◌,
  Option, none, some,
}
use denso_ipc.Codes.{s_ok, e_invalidarg, e_notimpl, e_max_object}
use denso_ipc.Variant.{Variant, scalar, Variants, nil, cons}
use denso_ipc.Bcap.Packet.{Packet}
use denso_ipc.Server.Mapid.{Relation, map_id, entry_of}

-- VariantInit: VT_EMPTY.
abbrev pub empty : Variant
empty = scalar 0 0

-- A function of the application, CALL_FUNC_BCAP: from the arguments and their count the code and the
-- result, and what it does to the world.
abbrev pub Function {ℓ} : Type ℓ → Type ℓ
Function W = Variants → ℕ → W → (ℕ × Variant) × W

-- m_list_func
abbrev pub Table {ℓ} : Type ℓ → Type ℓ
Table W = ℕ → Option (Function W)

abbrev pub function_id_max : ℕ
function_id_max = 138

-- The numbers of functions, `0 < id && id < _FUNCTION_ID_MAX` for an int32_t as 32 bits.
abbrev pub is_function : ℕ → Bool
is_function id = ltb 0 id && ltb id function_id_max

unfoldable pub set_call_func {ℓ} : {W : Type ℓ} → Table W → ℕ → Option (Function W) → ℕ × Table W
set_call_func table id f =
    if is_function id then (s_ok, λ i. if i == id then f else table i) else (e_invalidarg, table)

abbrev pub flag_of : Option (Relation × Bool) → ℕ
flag_of none = 0
flag_of (some (r, true)) = 1
flag_of (some (r, false)) = 0

-- The branch for a function of the table.
unfoldable pub run_function {ℓ} :
    {W : Type ℓ} → Option (Function W) → Packet → Packet → W → Packet × W
run_function none recv send w =
    (record send { serial = recv.serial; reserv = 0; id = e_notimpl; argc = 0 }, w)
run_function (some f) recv send w =
    let done = f recv.args recv.argc w in
    (
      record {
        serial = recv.serial;
        reserv = 0;
        id = done.0.0;
        argc = flag_of (entry_of map_id recv.id);
        args = cons done.0.1 nil;
      },
      done.1,
    )

-- bcap_callfunc: the new `send_packet`.
unfoldable pub callfunc {ℓ} : {W : Type ℓ} → Table W → Packet → Packet → W → Packet × W
unfolding run_function
callfunc table recv send w =
    if is_function recv.id
    then run_function (table recv.id) recv send w
    else (record send { serial = recv.serial; reserv = 0; id = e_invalidarg; argc = 0 }, w)
