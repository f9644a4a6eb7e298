-- ===== src/Device/Options.antt =====
-- Connection options, strings like `tcp:127.0.0.1:5007`: the parsers of
-- library/src/dn_device.c.
pub mod Fields
pub mod Serial
pub mod Ether
use denso_ipc.Prelude.{
  ℕ, zero, suc, ◌+◌, ◌-◌, ◌*◌, ◌/◌, ◌%◌, ◌^◌, ◌==◌, ltb, leb, not, ◌&&◌, ◌||◌, if◌then◌else◌, Bool,
  true, false, List, [], ◌∷◌, Option, none, some, take, length,
}
use denso_ipc.Outcome.{Outcome, ok, err, bind, e_invalidarg, e_outofmemory, overflow}
use denso_ipc.Device.{conn_tcp, conn_udp, conn_com}

-- Functions of the C library. An `int` is 32 bits and a `long` 64, negative numbers from the half
-- on; `tenths` is `(int) (atof(s) * 10.0)`.
pub record Libc : Type 0 where
  pub malloc : ℕ → Bool
  pub atoi : List ℕ → ℕ
  pub atol : List ℕ → ℕ
  pub inet_addr : List ℕ → ℕ
  pub tenths : List ℕ → ℕ

pub record ConnParamEth : Type 0 where
  pub dst_addr : ℕ
  pub dst_port : ℕ
  pub src_addr : ℕ
  pub src_port : ℕ

pub record ConnParamCom : Type 0 where
  pub port : ℕ
  pub baud_rate : ℕ
  pub parity : ℕ
  pub data_bits : ℕ
  pub stop_bits : ℕ
  pub flow : ℕ

-- `strspn(src, "0123456789") == len`.
unfoldable pub all_digits : List ℕ → Bool
all_digits [] = true
all_digits (c ∷ s) = leb 48 c && leb c 57 && all_digits s

-- A string is its characters before the final 0, none where it is NULL.
unfoldable pub is_numeric : Option (List ℕ) → Bool
is_numeric none = false
is_numeric (some []) = false
is_numeric (some (c ∷ s)) = if c == 45 then all_digits s else all_digits (c ∷ s)

abbrev pub to_lower : ℕ → ℕ
to_lower c = if leb 65 c && leb c 90 then c + 32 else c

-- `strnicmp(opt, word, _TYPE_MIN) == 0` for the three letters of a word.
unfoldable pub starts : List ℕ → ℕ → ℕ → ℕ → Bool
starts [] x y z = false
starts (a ∷ []) x y z = false
starts (a ∷ b ∷ []) x y z = false
starts (a ∷ b ∷ c ∷ s) x y z = (to_lower a == x) && (to_lower b == y) && (to_lower c == z)

-- The type of the connection, none for -1.
unfoldable pub parse_conn_type : Option (List ℕ) → Option ℕ
parse_conn_type none = none
parse_conn_type (some opt) =
    if starts opt 116 99 112
    then some conn_tcp
    else if starts opt 117 100 112
    then some conn_udp
    else if starts opt 99 111 109
    then some conn_com
    else none

-- `strchr(top, ':')`: what stands before the colon, and behind it.
unfoldable pub cut : List ℕ → List ℕ × Option (List ℕ)
cut [] = ([], none)
cut (c ∷ s) = let later = cut s in if c == 58 then ([], some s) else (c ∷ later.0, later.1)

unfoldable pub add_field : List ℕ → Option (List (List ℕ)) → Option (List (List ℕ))
add_field field none = none
add_field field (some fields) = some (field ∷ fields)

-- The loop that splits the copy of the string, with room for `room` more fields.
unfoldable pub split : ℕ → List ℕ → Option (List (List ℕ))
split zero top = none
split (suc room) top = elim (cut top).1 [
  | none ↦ some ((cut top).0 ∷ [])
  | some later ↦ add_field (cut top).0 (split room later)
]

-- `pos_param[i]` where `n > i`.
unfoldable pub field_at : ℕ → List (List ℕ) → Option (List ℕ)
field_at i [] = none
field_at zero (s ∷ ss) = some s
field_at (suc i) (s ∷ ss) = field_at i ss

abbrev pub para_max_eth : ℕ
para_max_eth = 5

abbrev pub para_max_com : ℕ
para_max_com = 7

-- On a little-endian machine.
abbrev pub htons : ℕ → ℕ
htons v = v % 256 * 256 + v / 256

unfoldable pub is_broadcast : List ℕ → Bool
is_broadcast s =
    same s (50 ∷ 53 ∷ 53 ∷ 46 ∷ 50 ∷ 53 ∷ 53 ∷ 46 ∷ 50 ∷ 53 ∷ 53 ∷ 46 ∷ 50 ∷ 53 ∷ 53 ∷ [])
  where
    same : List ℕ → List ℕ → Bool
    same [] [] = true
    same [] (y ∷ ys) = false
    same (x ∷ xs) [] = false
    same (x ∷ xs) (y ∷ ys) = (x == y) && same xs ys

module _ (libc : Libc) where
  -- `tmp < 0` and `tmp != (uint16_t) tmp` are one comparison in this form of an `int`.
  unfoldable pub port_of : List ℕ → Outcome ℕ
  port_of s =
      if not (is_numeric (some s))
      then err e_invalidarg
      else if leb (2 ^ 16) (libc.atoi s)
      then err overflow
      else ok (htons (libc.atoi s))

  unfoldable pub addr_of : List ℕ → Outcome ℕ
  addr_of s =
      if (libc.inet_addr s == 0xFFFFFFFF) && not (is_broadcast s)
      then err e_invalidarg
      else ok (libc.inet_addr s)

  unfoldable pub set_src_port : Option (List ℕ) → ConnParamEth → Outcome ConnParamEth
  set_src_port none param = ok param
  set_src_port (some s) param = bind (port_of s) (λ n. ok (record {
    dst_addr = param.dst_addr;
    dst_port = param.dst_port;
    src_addr = param.src_addr;
    src_port = n;
  }))

  unfoldable pub set_src_addr : Option (List ℕ) → ConnParamEth → Outcome ConnParamEth
  set_src_addr none param = ok param
  set_src_addr (some s) param = bind (addr_of s) (λ n. ok (record {
    dst_addr = param.dst_addr;
    dst_port = param.dst_port;
    src_addr = n;
    src_port = param.src_port;
  }))

  unfoldable pub set_dst_port : Option (List ℕ) → ConnParamEth → Outcome ConnParamEth
  set_dst_port none param = ok param
  set_dst_port (some s) param = bind (port_of s) (λ n. ok (record {
    dst_addr = param.dst_addr;
    dst_port = n;
    src_addr = param.src_addr;
    src_port = param.src_port;
  }))

  unfoldable pub set_dst_addr : Option (List ℕ) → ConnParamEth → Outcome ConnParamEth
  set_dst_addr none param = ok param
  set_dst_addr (some s) param = bind (addr_of s) (λ n. ok (record {
    dst_addr = n;
    dst_port = param.dst_port;
    src_addr = param.src_addr;
    src_port = param.src_port;
  }))

  -- From the split string on: the fields are read from the last to the first.
  unfoldable pub set_ether : Option (List (List ℕ)) → ConnParamEth → Outcome ConnParamEth
  set_ether none param = err e_invalidarg
  set_ether (some fields) param = bind (set_src_port (field_at 4 fields) param) (λ p1.
      bind (set_src_addr (field_at 3 fields) p1)
        (λ p2. bind (set_dst_port (field_at 2 fields) p2) (set_dst_addr (field_at 1 fields))))

  unfoldable pub is_ether : Option ℕ → Bool
  is_ether none = false
  is_ether (some kind) = (kind == conn_tcp) || (kind == conn_udp)

  unfoldable pub parse_conn_param_ether :
      Option (List ℕ) → Option ConnParamEth → Outcome ConnParamEth
  parse_conn_param_ether opt none = err e_invalidarg
  parse_conn_param_ether none (some param) = err e_invalidarg
  parse_conn_param_ether (some opt) (some param) =
      if not (is_ether (parse_conn_type (some opt)))
      then err e_invalidarg
      else if not (libc.malloc (length opt + 1))
      then err e_outofmemory
      else set_ether (split para_max_eth opt) param
