-- ===== src/Network/Poller/Tests.antt =====
-- Runs of the poller on a kernel that never lacks memory.
use x_kbengine.Prelude.{
  ◌≡◌, refl, Bool, true, false, Option, none, some, [], ◌∷◌, if◌then◌else◌, ℕ, arith,
}
use x_kbengine.Prelude.{List, ok}
use x_kbengine.Network.Poller.{Poller}
use x_kbengine.Network.Poller.Dispatch.{Event, process_events}
use x_kbengine.Network.Poller.Calls.{
  Call, AllAnswered, note_read, note_write, noted, process_events-calls,
}
use x_kbengine.Network.Poller.{
  Fd, same_fd, Events, events, Ctl, ctl_add, ctl_mod, ctl_del, Epoll, init, register_for_read,
  register_for_write, deregister_for_read, do_register, request, is_registered,
}
use x_kbengine.Network.Poller.Coherent.{
  same_fd_refl, read_on, write_on, read_off, change_all, change, change_all-init,
}

abbrev Table : Type 0
Table = Fd → Option Events

abbrev put : Fd → Option Events → Table → Table
put fd ev t g = if same_fd fd g then ev else t g

-- Whether the call succeeds, by the entry that is there.
abbrev allowed : Ctl → Option Events → Bool
allowed ctl_add none = true
allowed ctl_add (some ev) = false
allowed ctl_mod none = false
allowed ctl_mod (some ev) = true
allowed ctl_del none = false
allowed ctl_del (some ev) = true

abbrev entry : Ctl → Events → Option Events
entry ctl_add ev = some ev
entry ctl_mod ev = some ev
entry ctl_del ev = none

abbrev control : Table → Ctl → Fd → Events → Table × Bool
control t op fd ev = if allowed op (t fd) then (put fd (entry op ev) t, true) else (t, false)

pub control-failed :
    (t : Table) (op : Ctl) (fd : Fd) (ev : Events) (g : Fd)
    → (control t op fd ev).1 ≡ false
    → (control t op fd ev).0 g ≡ t g
control-failed t op fd ev g h = ground arith

pub control-others :
    (t : Table) (op : Ctl) (fd : Fd) (ev : Events) (g : Fd)
    → same_fd fd g ≡ false
    → (control t op fd ev).0 g ≡ t g
control-others t op fd ev g h = ground arith

pub control-add :
    (t : Table) (fd : Fd) (ev : Events)
    → (control t ctl_add fd ev).1 ≡ true
    → (t fd ≡ none) × ((control t ctl_add fd ev).0 fd ≡ some ev)
control-add t fd ev h = ground (arith, same_fd_refl fd)

pub control-mod :
    (t : Table) (fd : Fd) (ev old : Events)
    → t fd ≡ some old
    → ((control t ctl_mod fd ev).1 ≡ true) × ((control t ctl_mod fd ev).0 fd ≡ some ev)
control-mod t fd ev old h = ground (arith, same_fd_refl fd)

pub control-del :
    (t : Table) (fd : Fd) (ev old : Events)
    → t fd ≡ some old
    → ((control t ctl_del fd ev).1 ≡ true) × ((control t ctl_del fd ev).0 fd ≡ none)
control-del t fd ev old h = ground (arith, same_fd_refl fd)

pub control-del_missing :
    (t : Table) (fd : Fd) (ev : Events) → t fd ≡ none → (control t ctl_del fd ev).1 ≡ false
control-del_missing t fd ev h = ground arith

abbrev pub table : Epoll
table = record {
  Kernel = Table;
  interest = λ t. t;
  ctl = control;
  ctl_failed = control-failed;
  ctl_others = control-others;
  add_done = control-add;
  mod_done = control-mod;
  del_done = control-del;
  del_missing = control-del_missing;
}

abbrev pub watching_none : Table
watching_none fd = none

-- Read and write on 3, then no more read: an entry is added, modified twice.
change_all-init_example :
    table.interest
      (change_all table {I = ℕ} {O = ℕ}
        (read_on (some 3) 7 ∷ write_on (some 3) 8 ∷ read_off (some 3) ∷ [])
        (init watching_none)).kernel
      (some 3)
    ≡ some (events false true)
unfolding change_all change register_for_read register_for_write deregister_for_read do_register
    request is_registered
change_all-init_example =
    change_all-init table {I = ℕ} {O = ℕ}
      (read_on (some 3) 7 ∷ write_on (some 3) 8 ∷ read_off (some 3) ∷ []) watching_none (λ fd. refl)
      (some 3)

-- A poller with a handler to read on 3 and one to write on 4, and three events.
abbrev two : Poller Table ℕ ℕ
two = change_all table (read_on (some 3) 7 ∷ write_on (some 4) 8 ∷ []) (init watching_none)

abbrev arrived : List Event
arrived =
    record { fd = some 4; hang_up = false; ready = events false true }
    ∷ record { fd = some 3; hang_up = false; ready = events true false }
    ∷ record { fd = some 4; hang_up = true; ready = events false false }
    ∷ []

process_events-calls_example :
    (calls : List (Call ℕ ℕ)) × (process_events
        (note_read table ℕ ℕ)
        (note_write table ℕ ℕ)
        arrived
        (record { poller = two; world = [] })
      ≡ ok (noted table ℕ ℕ calls (record { poller = two; world = [] })))
    × AllAnswered two arrived calls
unfolding change_all change register_for_read register_for_write deregister_for_read do_register
    request is_registered
process_events-calls_example =
    process_events-calls table ℕ ℕ arrived (record { poller = two; world = [] })
      (change_all-init table {I = ℕ} {O = ℕ} (read_on (some 3) 7 ∷ write_on (some 4) 8 ∷ [])
        watching_none (λ fd. refl))
      (refl, (refl, (refl, tt)))
