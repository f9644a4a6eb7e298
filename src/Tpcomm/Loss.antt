-- ===== src/Tpcomm/Loss.antt =====
-- A connection of library/src/TPComm/dn_tpcomm.c on which nothing is received.
pub mod Told
use denso_ipc.Prelude.{
  ap, ◌+◌, ◌^◌, ◌≤◌, ◌<◌, ◌⊎◌, ◌∙◌, ◌++◌, Bool, true, [], map, le→ltb-false, lt→leb-false,
  append-nil, ℕ, ◌≡◌, ◌≢◌, refl, ltb, if◌then◌else◌, Bool-cases, inl, inr, List, ◌∷◌, some, ne→==,
  arith,
}
use denso_ipc.Outcome.{Outcome, bind, Hresult, ok, e_accessdenied}
use denso_ipc.Device.{ConnParamCommon, conn_com}
use denso_ipc.Time.{calc_time_diff, later, calc_time_diff-later}
use denso_ipc.Tpcomm.{Tp, lost, Line, tp_connect, tp_tperror, tp_disconnect, tp_retry_nak}
use denso_ipc.Tpcomm.Link.{missed, tp_recv, attempts, check_cts, receive, take_packet}
use denso_ipc.Tpcomm.Events.{
  Notice, told, Callbacks, System, stay, report, tperror_timeout, tpless_interval, decide_state,
  apply, update_state, handle, receive_execute,
}
use denso_ipc.Tpcomm.Sync.{callfunc-special}

module _ {ℓ} {W : Type ℓ} (line : Line W) (func : Callbacks) where
  handle-missed :
      (calls : List Notice) (e : Hresult) (tp : Tp W) (w : W)
      → e ≢ e_accessdenied
      → handle line func calls (missed e, tp, w)
        ≡ ok (update_state line func tp_tperror (record { tp = tp; world = w; calls = calls }))
  unfolding handle
  handle-missed calls e_accessdenied tp w n = absurd (n refl)
  handle-missed calls _ tp w n = refl

  tp_recv-lost :
      (tp : Tp W) (w w' : W) (device : ConnParamCommon W) (e : Hresult)
      → tp.device.kind ≢ conn_com
      → line.rtk_recv tp.device tp.client tp_retry_nak w ≡ ok (lost e, device, w')
      → tp_recv line tp w ≡ ok (missed e, record tp { device = device }, w')
  unfolding tp_recv attempts check_cts receive take_packet
  tp_recv-lost tp w w' device e k h = rw (ne→== tp.device.kind conn_com k, h) refl

  -- A round in which nothing is received.
  pub receive_execute-missed :
      (s : System W) (e : Hresult) (device : ConnParamCommon W) (w : W)
      → s.tp.device.kind ≢ conn_com
      → e ≢ e_accessdenied
      → line.rtk_recv s.tp.device s.tp.client tp_retry_nak s.world ≡ ok (lost e, device, w)
      → receive_execute line func s
        ≡ ok (
            update_state line func tp_tperror
              (record { tp = record s.tp { device = device }; world = w; calls = s.calls }))
  unfolding receive_execute
  receive_execute-missed s e device w k n h =
      rw
        (
          tp_recv-lost s.tp s.world w device e k h,
          handle-missed s.calls e (record s.tp { device = device }) w n,
        )
        refl

module _ {ℓ} {W : Type ℓ} (line : Line W) (func : Callbacks) (f : ℕ → ℕ)
    (set : func.call_state ≡ some f) where
  -- A connected connection, with the time since its clock.
  decide-connected :
      (state diff : ℕ)
      → state ≡ tp_connect
      → decide_state state tp_tperror diff
        ≡ (if ltb tperror_timeout diff then report tp_disconnect else stay)
  unfolding decide_state
  decide-connected state diff e = rw e refl

  -- In one round of a connected connection.
  pub receive_execute-lost :
      (s : System W) (e : Hresult) (device : ConnParamCommon W) (w : W)
      → s.tp.device.kind ≢ conn_com
      → s.tp.state ≡ tp_connect
      → e ≢ e_accessdenied
      → line.rtk_recv s.tp.device s.tp.client tp_retry_nak s.world ≡ ok (lost e, device, w)
      → receive_execute line func s
        ≡ ok (
            if ltb tperror_timeout (calc_time_diff s.tp.check_clock line.now)
            then record {
              tp = record s.tp { device = device; state = tp_tperror; check_clock = line.now };
              world = w;
              calls = told tp_disconnect ∷ s.calls;
            }
            else record { tp = record s.tp { device = device }; world = w; calls = s.calls })
  unfolding update_state apply
  receive_execute-lost s e device w k c n h =
      rw
        (
          receive_execute-missed line func s e device w k n h,
          decide-connected s.tp.state (calc_time_diff s.tp.check_clock line.now) c,
        )
        (elim (Bool-cases (ltb tperror_timeout (calc_time_diff s.tp.check_clock line.now))) [
          | inl l ↦ rw (l, callfunc-special line.malloc func f tp_disconnect set (omega arith)) refl
          | inr l ↦ rw l refl
        ])
