-- ===== src/Dispatcher/Loop/Life.antt =====
-- The start and the end of an `EventDispatcher` of libs/dispatcher/event_dispatcher.cpp, around the loop.
use x_kbengine.Prelude.{Option, some, [], Outcome, ok, fail, undefined}
use x_kbengine.Prelude.Int.{ℤ, pos}
use x_kbengine.Network.Poller
use x_kbengine.Dispatcher.Timers.{Timers}
use x_kbengine.Dispatcher.Timers
use x_kbengine.Dispatcher.Loop.{Shared, EventDispatcher}

-- A new dispatcher has a status, and a longest wait once that is set, but no tasks, timers and poller.
pub data Dispatcher (K I O W : Type 0) : Type 0 where
  constructed : Shared W → Option ℤ → Dispatcher K I O W
  initialized : EventDispatcher K I O W → Dispatcher K I O W

abbrev pub new_timers : Timers
new_timers = record { queue = []; fresh = 0; registered = λ handler. pos 0 }

module _ {K I O W : Type 0} where
  -- The poller is made with what `epoll_create` answers. What is there already stays.
  unfoldable pub initialize : K → Dispatcher K I O W → Dispatcher K I O W
  initialize kernel (constructed shared max_wait) = initialized (record {
    site = record { poller = Poller.init kernel; world = shared };
    tasks = [];
    timers = new_timers;
    max_wait = max_wait;
    num_timer_calls = 0;
  })
  initialize kernel (initialized d) = initialized d

  -- `maxWait(seconds)`, with the least number of milliseconds that is no less, as an `int`.
  unfoldable pub set_max_wait : ℤ → Dispatcher K I O W → Dispatcher K I O W
  set_max_wait milliseconds (constructed shared max_wait) = constructed shared (some milliseconds)
  set_max_wait milliseconds (initialized d) =
      initialized (record d { max_wait = some milliseconds })

  -- The destructor clears the timers, which are what is left of it here.
  unfoldable pub destroy : Dispatcher K I O W → Outcome Timers
  destroy (constructed shared max_wait) = fail undefined
  destroy (initialized d) = ok (Timers.clear d.timers)
