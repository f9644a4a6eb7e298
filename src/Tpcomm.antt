-- ===== src/Tpcomm.antt =====
-- library/src/TPComm/dn_tpcomm.c: the connection to a teach pendant, over the packets of Robotalk.
pub mod Link
pub mod Events
pub mod Timer
pub mod Keeps
pub mod Sync
pub mod Steps
pub mod Answers
pub mod Loss
pub mod Serial
pub mod Requests
pub mod Opening
pub mod Drawing
mod Tests
use denso_ipc.Prelude.{ℕ, ◌+◌, ◌*◌, ◌/◌, ◌%◌, ◌^◌, ◌==◌, Bool, List, Option}
use denso_ipc.Outcome.{Hresult, Outcome}
use denso_ipc.Device.{ConnParamCommon}

-- enum TP_STATE
abbrev pub tp_disconnect : ℕ
tp_disconnect = 0

abbrev pub tp_connect : ℕ
tp_connect = 1

abbrev pub tp_tpless : ℕ
tp_tpless = 2

abbrev pub tp_tperror : ℕ
tp_tperror = 3

abbrev pub tp_cmd_special : ℕ
tp_cmd_special = 0x0FFF

abbrev pub tp_cmd_req_id : ℕ
tp_cmd_req_id = 0x0EF0

abbrev pub tp_cmd_keyinfo : ℕ
tp_cmd_keyinfo = 0x0C20

-- TP_CMD_TOUTCHINFO
abbrev pub tp_cmd_touchinfo : ℕ
tp_cmd_touchinfo = 0x0C21

abbrev pub tp_cmd_get_keystate : ℕ
tp_cmd_get_keystate = 0x0C2D

abbrev pub tp_cmd_ping : ℕ
tp_cmd_ping = 0x0C2F

abbrev pub tp_retry_nak : ℕ
tp_retry_nak = 2

abbrev pub tp_retry_timeout : ℕ
tp_retry_timeout = 2

abbrev pub rtk_cmd_ack : ℕ
rtk_cmd_ack = 0x0E02

abbrev pub rtk_cmd_rej : ℕ
rtk_cmd_rej = 0x0E01

-- `NativeCommand`: `cmd & ~RTK_RETRY_MASK` of a uint16_t.
abbrev pub native_command : ℕ → ℕ
native_command cmd = cmd % 2 ^ 12

-- CONN_PARAM_TP without `evt`, the mutex, the threads and their flags, and `timer_clock`. `last_packet` is 256 bytes.
pub record Tp {ℓ} (W : Type ℓ) : Type ℓ where
  pub device : ConnParamCommon W
  pub client : Bool
  pub init : Bool
  pub state : ℕ
  pub cts : Bool
  pub from_id : ℕ
  pub to_id : ℕ
  pub ping_clock : ℕ
  pub init_clock : ℕ
  pub check_clock : ℕ
  pub last_packet : List ℕ

-- What rtk_recv stores in a packet, with the command in the order of the host.
pub record Incoming : Type 0 where
  pub command : ℕ
  pub payload : List ℕ
  pub sender : ℕ

-- How rtk_recv ends.
pub data Arrival : Type 0 where
  lost : Hresult → Arrival
  arrived : Incoming → Arrival

-- What a call meets: the bytes of an uninitialised packet, malloc, the modem's CTS bit, dn_clear, rtk_recv (for a client
-- or not, with a count of attempts), the time at which a packet with a command is sent, and the time at which a clock
-- is looked at.
pub record Line {ℓ} (W : Type ℓ) : Type ℓ where
  pub heap : List ℕ
  pub malloc : ℕ → Bool
  pub modem : W → Bool
  pub dn_clear : W → W
  pub rtk_recv : ConnParamCommon W → Bool → ℕ → W → Outcome (Arrival × ConnParamCommon W × W)
  pub sent_at : ℕ → ℕ
  pub now : ℕ
