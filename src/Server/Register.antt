-- ===== src/Server/Register.antt =====
-- bCap_SetCallFunc and bcap_callfunc of library/src/bCAPServer/bcap_server.c together.
use denso_ipc.Prelude.{
  ℕ, ◌≡◌, refl, subst, ◌==◌, if◌then◌else◌, Bool-cases, inl, inr, true, some, arith,
}
use denso_ipc.Bcap.Packet.{Packet}
use denso_ipc.Server.{Function, Table, is_function, set_call_func, run_function, callfunc}

equal : (x y : ℕ) → (x == y) ≡ true → y ≡ x
equal x y h = ground arith

module _ {ℓ} {W : Type ℓ} (table : Table W) (id : ℕ) (f : Function W) (recv send : Packet)
    (w : W) where
  -- A function that is set for a number of the table runs for requests with this number, and requests with
  -- another number are answered as before.
  pub callfunc-set_call_func :
      is_function id ≡ true
      → callfunc (set_call_func table id (some f)).1 recv send w
        ≡ (if recv.id == id then run_function (some f) recv send w else callfunc table recv send w)
  unfolding set_call_func callfunc
  callfunc-set_call_func h = elim (Bool-cases (recv.id == id)) [
    | inl e ↦ rw (h, e, subst (λ n. is_function n ≡ true) (equal recv.id id e) h) refl
    | inr e ↦ rw (h, e) refl
  ]
