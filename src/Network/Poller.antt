-- ===== src/Network/Poller.antt =====
-- libs/network/event_poller.h and event_poller.cpp: handlers for file descriptors, and the epoll set of
-- the kernel, which is a parameter.
pub mod Coherent
pub mod Dispatch
pub mod Calls
pub mod Tests
use x_kbengine.Prelude.{
  ℕ, ◌+◌, ◌≡◌, ◌≢◌, Bool, true, false, not, Option, none, some, List, [], ◌∷◌, ◌==◌, if◌then◌else◌,
}

-- A file descriptor; `none` stands for -1.
abbrev pub Fd : Type 0
Fd = Option ℕ

abbrev pub same_fd : Fd → Fd → Bool
same_fd none none = true
same_fd none (some b) = false
same_fd (some a) none = false
same_fd (some a) (some b) = a == b

pub record Events : Type 0 where
  pub input : Bool
  pub output : Bool

abbrev pub events : Bool → Bool → Events
events i o = record { input = i; output = o }

pub data Ctl : Type 0 where
  ctl_add ctl_mod ctl_del : Ctl

-- `epoll_ctl(2)` and what its manual says of it: a call changes the entry of its descriptor alone, and
-- only if it succeeds; adding wants no entry, modifying and removing want one. Removing and modifying
-- an entry that is there succeed; adding may also fail for want of memory.
pub record Epoll : Type 1 where
  pub Kernel : Type 0
  pub interest : Kernel → Fd → Option Events
  pub ctl : Kernel → Ctl → Fd → Events → Kernel × Bool
  pub ctl_failed :
      (k : Kernel) (op : Ctl) (fd : Fd) (ev : Events) (g : Fd)
      → (ctl k op fd ev).1 ≡ false
      → interest (ctl k op fd ev).0 g ≡ interest k g
  pub ctl_others :
      (k : Kernel) (op : Ctl) (fd : Fd) (ev : Events) (g : Fd)
      → same_fd fd g ≡ false
      → interest (ctl k op fd ev).0 g ≡ interest k g
  pub add_done :
      (k : Kernel) (fd : Fd) (ev : Events)
      → (ctl k ctl_add fd ev).1 ≡ true
      → (interest k fd ≡ none) × (interest (ctl k ctl_add fd ev).0 fd ≡ some ev)
  pub mod_done :
      (k : Kernel) (fd : Fd) (ev old : Events)
      → interest k fd ≡ some old
      → ((ctl k ctl_mod fd ev).1 ≡ true) × (interest (ctl k ctl_mod fd ev).0 fd ≡ some ev)
  pub del_done :
      (k : Kernel) (fd : Fd) (ev old : Events)
      → interest k fd ≡ some old
      → ((ctl k ctl_del fd ev).1 ≡ true) × (interest (ctl k ctl_del fd ev).0 fd ≡ none)
  pub del_missing :
      (k : Kernel) (fd : Fd) (ev : Events) → interest k fd ≡ none → (ctl k ctl_del fd ev).1 ≡ false

abbrev pub is_some {ℓ} : {A : Type ℓ} → Option A → Bool
is_some none = false
is_some (some a) = true

-- `std::map<int, std::shared_ptr<Handler>>`, of which only look-ups are used.
abbrev pub Handlers : Type 0 → Type 0
Handlers H = Fd → Option H

abbrev pub update : {H : Type 0} → Fd → Option H → Handlers H → Handlers H
update fd h m g = if same_fd fd g then h else m g

pub record Poller (K I O : Type 0) : Type 0 where
  pub kernel : K
  pub spare_time : ℕ
  pub read_handlers : Handlers I
  pub write_handlers : Handlers O

-- `EventPoller()`, with the kernel's set that `epoll_create` made.
abbrev pub init : {K I O : Type 0} → K → Poller K I O
init k = record {
  kernel = k;
  spare_time = 0;
  read_handlers = λ fd. none;
  write_handlers = λ fd. none;
}

module _ (e : Epoll) {I O : Type 0} where
  open e use {Kernel, ctl}

  unfoldable pub is_registered : Fd → Bool → Poller Kernel I O → Bool
  is_registered fd is_for_read p =
      if is_for_read then is_some (p.read_handlers fd) else is_some (p.write_handlers fd)

  -- The operation and the events that `doRegister` asks for.
  unfoldable pub request : Fd → Bool → Bool → Poller Kernel I O → Ctl × Events
  request fd is_read is_register p =
      if is_registered fd (not is_read) p
      then (
        ctl_mod,
        if is_register
            then events true true
            else if is_read
            then events false true
            else events true false,
      )
      else (
        if is_register then ctl_add else ctl_del,
        if is_read then events true false else events false true,
      )

  unfoldable pub do_register : Fd → Bool → Bool → Poller Kernel I O → Poller Kernel I O × Bool
  do_register fd is_read is_register p =
      let (op, ev) = request fd is_read is_register p in
      let (k, done) = ctl p.kernel op fd ev in (record p { kernel = k }, done)

  unfoldable pub register_for_read : Fd → I → Poller Kernel I O → Poller Kernel I O × Bool
  register_for_read fd handler p =
      let (q, done) = do_register fd true true p in
      if done
      then (record q { read_handlers = update fd (some handler) q.read_handlers }, true)
      else (q, false)

  unfoldable pub register_for_write : Fd → O → Poller Kernel I O → Poller Kernel I O × Bool
  register_for_write fd handler p =
      let (q, done) = do_register fd false true p in
      if done
      then (record q { write_handlers = update fd (some handler) q.write_handlers }, true)
      else (q, false)

  unfoldable pub deregister_for_read : Fd → Poller Kernel I O → Poller Kernel I O × Bool
  deregister_for_read fd p =
      do_register fd true false (record p { read_handlers = update fd none p.read_handlers })

  unfoldable pub deregister_for_write : Fd → Poller Kernel I O → Poller Kernel I O × Bool
  deregister_for_write fd p =
      do_register fd false false (record p { write_handlers = update fd none p.write_handlers })

  unfoldable pub clear_spare_time : Poller Kernel I O → Poller Kernel I O
  clear_spare_time p = record p { spare_time = 0 }
