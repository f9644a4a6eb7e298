-- ===== src/Codes.antt =====
-- HRESULT as the 32 bits of an int32_t: codes of library/include/dn_common.h, bcap_common.h and
-- bCAPServer/bcap_server.h.
use denso_ipc.Prelude.{ℕ, ◌^◌, leb, Bool}

-- FAILED
abbrev pub failed : ℕ → Bool
failed hr = leb (2 ^ 31) hr

abbrev pub s_ok : ℕ
s_ok = 0

abbrev pub s_false : ℕ
s_false = 1

abbrev pub s_executing : ℕ
s_executing = 0x00000900

abbrev pub e_notimpl : ℕ
e_notimpl = 0x80004001

abbrev pub e_fail : ℕ
e_fail = 0x80004005

abbrev pub e_handle : ℕ
e_handle = 0x80070006

abbrev pub e_outofmemory : ℕ
e_outofmemory = 0x8007000E

abbrev pub e_invalidarg : ℕ
e_invalidarg = 0x80070057

abbrev pub e_timeout : ℕ
e_timeout = 0x80000900

abbrev pub e_max_object : ℕ
e_max_object = 0x80000905
