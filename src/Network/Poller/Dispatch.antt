-- ===== src/Network/Poller/Dispatch.antt =====
-- libs/network/event_poller.cpp: waiting for events, and the calls of the handlers. Handlers are virtual,
-- so they are parameters; they may change the poller.
use x_kbengine.Prelude.{
  ℕ, ◌+◌, Bool, true, false, Option, none, some, List, [], ◌∷◌, length, if◌then◌else◌, Outcome, ok,
  ◌>>=◌,
}
use x_kbengine.Prelude.Int.{ℤ, pos, negsuc}
use x_kbengine.Network.Poller.{Fd, Events, Poller}

-- `hang_up` stands for EPOLLERR and EPOLLHUP, `ready` for EPOLLIN and EPOLLOUT.
pub record Event : Type 0 where
  pub fd : Fd
  pub hang_up : Bool
  pub ready : Events

-- What `epoll_wait(2)` answers: events, or -1.
pub data Waited : Type 0 where
  waited : List Event → Waited
  wait_failed : Waited

-- The poller with all else that the handlers change.
pub record Site (K I O W : Type 0) : Type 0 where
  pub poller : Poller K I O
  pub world : W

module _ {K I O : Type 0} where
  unfoldable pub find_for_read : Fd → Poller K I O → Option I
  find_for_read fd p = p.read_handlers fd

  unfoldable pub find_for_write : Fd → Poller K I O → Option O
  find_for_write fd p = p.write_handlers fd

module _ {K I O W : Type 0} (on_input : I → Fd → Site K I O W → Outcome (Site K I O W))
    (on_output : O → Fd → Site K I O W → Outcome (Site K I O W)) where
  -- The results say whether a handler was called.
  unfoldable pub trigger_read : Fd → Site K I O W → Outcome (Bool × Site K I O W)
  trigger_read fd s = elim (s.poller.read_handlers fd) [
    | none ↦ ok (false, s)
    | some h ↦ on_input h fd s >>= λ t. ok (true, t)
  ]

  unfoldable pub trigger_write : Fd → Site K I O W → Outcome (Bool × Site K I O W)
  trigger_write fd s = elim (s.poller.write_handlers fd) [
    | none ↦ ok (false, s)
    | some h ↦ on_output h fd s >>= λ t. ok (true, t)
  ]

  unfoldable pub trigger_error : Fd → Site K I O W → Outcome (Bool × Site K I O W)
  trigger_error fd s =
      trigger_read fd s >>= λ r. if r.0 then ok (true, r.1) else trigger_write fd r.1

  unfoldable pub process_event : Event → Site K I O W → Outcome (Site K I O W)
  process_event ev s =
      if ev.hang_up
      then trigger_error ev.fd s >>= (λ r. ok r.1)
      else (if ev.ready.input then trigger_read ev.fd s else ok (false, s)) >>= (λ r.
          (if ev.ready.output then trigger_write ev.fd r.1 else ok (false, r.1)) >>= λ q. ok q.1)

  unfoldable pub process_events : List Event → Site K I O W → Outcome (Site K I O W)
  process_events [] s = ok s
  process_events (ev ∷ events) s = process_event ev s >>= process_events events

  -- `elapsed` is the time that `epoll_wait` took; the result is its result.
  unfoldable pub process_pending_events : ℕ → Waited → Site K I O W → Outcome (ℤ × Site K I O W)
  process_pending_events elapsed answer s =
      let t : Site K I O W = record s {
        poller = record s.poller { spare_time = s.poller.spare_time + elapsed };
      } in
      elim answer [
        | wait_failed ↦ ok (negsuc 0, t)
        | waited events ↦ process_events events t >>= λ u. ok (pos (length events), u)
      ]
