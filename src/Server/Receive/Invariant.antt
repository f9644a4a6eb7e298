-- ===== src/Server/Receive/Invariant.antt =====
-- receive_execute of library/src/bCAPServer/bcap_server.c and the objects of a connection.
use denso_ipc.Prelude.{
  ℕ, ◌≡◌, subst, ◌==◌, leb, ◌&&◌, if◌then◌else◌, Bool, List, Option, none, some,
}
use denso_ipc.Outcome.{Outcome, ok, bind}
use denso_ipc.Outcome.All.{All, bind-All, if-All}
use denso_ipc.Codes.{failed, s_ok, s_false, s_executing, e_timeout, e_max_object}
use denso_ipc.Variant.{Variant}
use denso_ipc.Bcap.Packet.{Packet}
use denso_ipc.Server.{Table, callfunc}
use denso_ipc.Server.Mapid.{Relation, keep, pop, push, map_id, entry_of}
use denso_ipc.Server.Objects.{
  Objects, object_max, IsCounted, push_vector-IsCounted, release_object-erase,
}
use denso_ipc.Server.Receive.{
  Session, Options, refused, intervals, Environment, Served, status, creates, is_repeat, long_at,
  track, track_entry, wait_done, respond, execute, stop, start, receive_execute,
}

long_at-All :
    (long_of : Variant → ℕ) (v : Option Variant) (f : ℕ → Objects)
    → ((h : ℕ) → IsCounted (f h))
    → All IsCounted (bind (long_at long_of v) (λ h. ok (f h)))
unfolding All
long_at-All long_of none f h = tt
long_at-All long_of (some v) f h = h (long_of v)

track-All :
    (env : Environment) (r : Relation) (recv reply : Packet) (v : Objects)
    → IsCounted v
    → All IsCounted (track env r recv reply v)
unfolding All track
track-All env keep recv reply v c = c
track-All env (push r) recv reply v c =
    if-All IsCounted env.room _ _
      (if-All IsCounted (recv.id == 1) _ _ (push_vector-IsCounted v _ c)
        (long_at-All env.long_of _ _ (λ h. push_vector-IsCounted v _ c)))
      c
track-All env pop recv reply v c =
    if-All IsCounted (recv.id == 2) _ _ (release_object-erase recv.id 0 v c).1
      (long_at-All env.long_of _ _ (λ h. (release_object-erase recv.id h v c).1))

track_entry-All :
    (env : Environment) (e : Option (Relation × Bool)) (recv reply : Packet) (v : Objects)
    → IsCounted v
    → All IsCounted (track_entry env e recv reply v)
unfolding All track_entry
track_entry-All env none recv reply v c = tt
track_entry-All env (some e) recv reply v c = track-All env e.0 recv reply v c

module _ {ℓ} {W : Type ℓ} (table : Table W) (env : Environment) where
  Counted : Served W → Type 0
  Counted v = IsCounted v.session.objects

  respond-All :
      (s : Session) (recv : Packet) (w : W) (sent : List Packet)
      → IsCounted s.objects
      → All Counted (respond table env s recv w sent)
  unfolding respond All Counted
  respond-All s recv w sent c =
      bind-All IsCounted Counted _ _
        (if-All IsCounted (s.last_send.id == s_ok) _ _
          (track_entry-All env (entry_of map_id recv.id) recv s.last_send s.objects c) c)
        (λ v k. k)

  execute-All :
      (hr : ℕ) (s : Session) (recv : Packet) (w : W)
      → IsCounted s.objects
      → All Counted (execute table env hr s recv w)
  unfolding execute All Counted
  execute-All hr s recv w c = if-All Counted (failed hr) _ _ c (
      if-All Counted (waited.0 == s_ok) (respond table env s' recv done.1 waited.1)
        (ok (record { hr = waited.0; session = s'; world = done.1; sent = waited.1 }))
        (respond-All s' recv done.1 waited.1 c) c)
    where
      done : Packet × W
      done = callfunc table recv s.last_send w

      s' : Session
      s' = record s { last_send = done.0 }

      waited : ℕ × List Packet
      waited = wait_done env s.exec_timeout (status recv s_executing) env.timeouts

  start-All :
      (o : Options) (s : Session) (recv : Packet) (w : W)
      → IsCounted s.objects
      → All Counted (start table env o s recv w)
  unfolding start All Counted
  start-All (refused code none) s recv w c = c
  start-All (refused code (some wdt)) s recv w c = c
  start-All (intervals wdt exec hr) s recv w c = execute-All hr _ recv w c

  receive_execute-All :
      (s : Session) (recv : Packet) (w : W)
      → IsCounted s.objects
      → All Counted (receive_execute table env s recv w)
  unfolding receive_execute All Counted
  receive_execute-All s recv w c =
      if-All Counted (is_repeat s recv)
        (stop table env s_false s w (record s.last_send { serial = recv.serial })) unrepeated c
        (if-All Counted env.busy (stop table env e_timeout s w (status recv env.busy_code)) idle c (
          if-All Counted (creates recv.id && leb object_max s.objects.num_object)
            (stop table env s_false s w (status recv e_max_object)) run c
            (if-All Counted (recv.id == 1) (start table env (env.options recv) s recv w)
              (execute table env s_ok s recv w) (start-All (env.options recv) s recv w c)
              (execute-All s_ok s recv w c))))
    where
      run : Outcome (Served W)
      run =
          if recv.id == 1
          then start table env (env.options recv) s recv w
          else execute table env s_ok s recv w

      idle : Outcome (Served W)
      idle =
          if creates recv.id && leb object_max s.objects.num_object
          then stop table env s_false s w (status recv e_max_object)
          else run

      unrepeated : Outcome (Served W)
      unrepeated =
          if env.busy then stop table env e_timeout s w (status recv env.busy_code) else idle

  -- If the counter of a connection counts its objects and is at most 1000, then it is so after any call
  -- of receive_execute on TCP or a serial line, whatever the packet, the function and the environment do.
  pub receive_execute-IsCounted :
      (s : Session) (recv : Packet) (w : W) (v : Served W)
      → IsCounted s.objects
      → receive_execute table env s recv w ≡ ok v
      → IsCounted v.session.objects
  unfolding All Counted
  receive_execute-IsCounted s recv w v c e = subst (All Counted) e (receive_execute-All s recv w c)
