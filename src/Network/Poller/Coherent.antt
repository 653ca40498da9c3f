-- ===== src/Network/Poller/Coherent.antt =====
-- The kernel's set and the poller's two maps say the same.
use x_kbengine.Prelude.{◌≡◌, refl, Bool, true, false, Option, none, some, List, [], ◌∷◌, arith}
use x_kbengine.Network.Poller.{
  Fd, same_fd, Events, events, Epoll, Poller, is_some, is_registered, request, do_register,
  register_for_read, register_for_write, deregister_for_read, deregister_for_write, ctl_add,
  ctl_mod, ctl_del, init,
}

-- What the kernel has to watch for.
abbrev pub wanted : Bool → Bool → Option Events
wanted false false = none
wanted true false = some (events true false)
wanted false true = some (events false true)
wanted true true = some (events true true)

pub same_fd_refl : (a : Fd) → same_fd a a ≡ true
same_fd_refl none = refl
same_fd_refl (some a) = ground arith

pub same_fd→≡ : (a b : Fd) → same_fd a b ≡ true → a ≡ b
same_fd→≡ none none h = refl
same_fd→≡ none (some b) h = cc
same_fd→≡ (some a) none h = cc
same_fd→≡ (some a) (some b) h = ground arith

module _ (e : Epoll) {I O : Type 0} where
  open e use {Kernel, interest}

  abbrev pub IsCoherent : Poller Kernel I O → Type 0
  IsCoherent p =
      (fd : Fd)
      → interest p.kernel fd ≡ wanted (is_some (p.read_handlers fd)) (is_some (p.write_handlers fd))

  -- After a registration for reading, successful or not, the kernel watches for just what the maps
  -- hold handlers for.
  pub register_for_read-IsCoherent :
      (fd : Fd) (h : I) (p : Poller Kernel I O)
      → IsCoherent p
      → IsCoherent (register_for_read e fd h p).0
  unfolding register_for_read do_register request is_registered
  register_for_read-IsCoherent fd h p c g = ground (
    arith,
    c fd,
    c g,
    same_fd→≡ fd g,
    e.ctl_failed p.kernel ctl_mod fd (events true true) g,
    e.ctl_others p.kernel ctl_mod fd (events true true) g,
    e.ctl_failed p.kernel ctl_add fd (events true false) g,
    e.ctl_others p.kernel ctl_add fd (events true false) g,
    e.add_done p.kernel fd (events true false),
    e.mod_done p.kernel fd (events true true) (events false true),
    e.mod_done p.kernel fd (events true true) (events true true),
  )

  pub register_for_write-IsCoherent :
      (fd : Fd) (h : O) (p : Poller Kernel I O)
      → IsCoherent p
      → IsCoherent (register_for_write e fd h p).0
  unfolding register_for_write do_register request is_registered
  register_for_write-IsCoherent fd h p c g = ground (
    arith,
    c fd,
    c g,
    same_fd→≡ fd g,
    e.ctl_failed p.kernel ctl_mod fd (events true true) g,
    e.ctl_others p.kernel ctl_mod fd (events true true) g,
    e.ctl_failed p.kernel ctl_add fd (events false true) g,
    e.ctl_others p.kernel ctl_add fd (events false true) g,
    e.add_done p.kernel fd (events false true),
    e.mod_done p.kernel fd (events true true) (events true false),
    e.mod_done p.kernel fd (events true true) (events true true),
  )

  pub deregister_for_read-IsCoherent :
      (fd : Fd) (p : Poller Kernel I O) → IsCoherent p → IsCoherent (deregister_for_read e fd p).0
  unfolding deregister_for_read do_register request is_registered
  deregister_for_read-IsCoherent fd p c g = ground (
    arith,
    c fd,
    c g,
    same_fd→≡ fd g,
    same_fd_refl fd,
    e.ctl_others p.kernel ctl_mod fd (events false true) g,
    e.ctl_others p.kernel ctl_del fd (events true false) g,
    e.mod_done p.kernel fd (events false true) (events false true),
    e.mod_done p.kernel fd (events false true) (events true true),
    e.del_done p.kernel fd (events true false) (events true false),
    e.del_missing p.kernel fd (events true false),
    e.ctl_failed p.kernel ctl_del fd (events true false) g,
  )

  pub deregister_for_write-IsCoherent :
      (fd : Fd) (p : Poller Kernel I O) → IsCoherent p → IsCoherent (deregister_for_write e fd p).0
  unfolding deregister_for_write do_register request is_registered
  deregister_for_write-IsCoherent fd p c g = ground (
    arith,
    c fd,
    c g,
    same_fd→≡ fd g,
    same_fd_refl fd,
    e.ctl_others p.kernel ctl_mod fd (events true false) g,
    e.ctl_others p.kernel ctl_del fd (events false true) g,
    e.mod_done p.kernel fd (events true false) (events true false),
    e.mod_done p.kernel fd (events true false) (events true true),
    e.del_done p.kernel fd (events false true) (events false true),
    e.del_missing p.kernel fd (events false true),
    e.ctl_failed p.kernel ctl_del fd (events false true) g,
  )

-- The calls by which receivers, senders and the listener change what is watched.
pub data Change (I O : Type 0) : Type 0 where
  read_on : Fd → I → Change I O
  write_on : Fd → O → Change I O
  read_off : Fd → Change I O
  write_off : Fd → Change I O

module _ (e : Epoll) {I O : Type 0} where
  unfoldable pub change : Change I O → Poller e.Kernel I O → Poller e.Kernel I O
  change (read_on fd h) p = (register_for_read e fd h p).0
  change (write_on fd h) p = (register_for_write e fd h p).0
  change (read_off fd) p = (deregister_for_read e fd p).0
  change (write_off fd) p = (deregister_for_write e fd p).0

  unfoldable pub change_all : List (Change I O) → Poller e.Kernel I O → Poller e.Kernel I O
  change_all [] p = p
  change_all (c ∷ cs) p = change_all cs (change c p)

  change-IsCoherent :
      (c : Change I O) (p : Poller e.Kernel I O) → IsCoherent e p → IsCoherent e (change c p)
  unfolding change
  change-IsCoherent (read_on fd h) p = register_for_read-IsCoherent e fd h p
  change-IsCoherent (write_on fd h) p = register_for_write-IsCoherent e fd h p
  change-IsCoherent (read_off fd) p = deregister_for_read-IsCoherent e fd p
  change-IsCoherent (write_off fd) p = deregister_for_write-IsCoherent e fd p

  change_all-IsCoherent :
      (cs : List (Change I O)) (p : Poller e.Kernel I O)
      → IsCoherent e p
      → IsCoherent e (change_all cs p)
  unfolding change_all
  change_all-IsCoherent [] p c = c
  change_all-IsCoherent (x ∷ cs) p c =
      change_all-IsCoherent cs (change x p) (change-IsCoherent x p c)

  -- After any sequence of registrations and deregistrations, for any descriptors, in any order and with
  -- refused ones among them, the kernel watches each descriptor for just the directions for which the
  -- poller holds a handler. The sequence starts with a new poller on a kernel that watches nothing.
  pub change_all-init :
      (cs : List (Change I O)) (k : e.Kernel)
      → ((fd : Fd) → e.interest k fd ≡ none)
      → (fd : Fd)
      → e.interest (change_all cs (init k)).kernel fd
        ≡ wanted
            (is_some ((change_all cs (init k)).read_handlers fd))
            (is_some ((change_all cs (init k)).write_handlers fd))
  change_all-init cs k none_yet = change_all-IsCoherent cs (init k) none_yet
