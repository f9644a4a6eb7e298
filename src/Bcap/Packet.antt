-- ===== src/Bcap/Packet.antt =====
-- struct BCAP_PACKET and the layout constants of library/include/bcap_common.h.
use denso_ipc.Prelude.{ℕ}
use denso_ipc.Variant.{Variants}

-- `id` is the bit pattern of an int32_t.
pub record Packet : Type 0 where
  pub serial : ℕ
  pub reserv : ℕ
  pub id : ℕ
  pub argc : ℕ
  pub args : Variants

abbrev pub header : ℕ
header = 0x01

abbrev pub terminator : ℕ
terminator = 0x04

-- BCAP_SIZE_MIN: header, length, serial, reserve, id, argc and terminator.
abbrev pub size_min : ℕ
size_min = 16

-- BCAP_SIZE_DATA_LEN
abbrev pub size_data_len : ℕ
size_data_len = 4
