-- ===== src/Script/Tests.antt =====
-- The hooks on an interpreter that keeps its two streams.
use x_kbengine.Prelude.{
  ℕ, ◌≡◌, refl, true, false, Option, some, List, [], ◌∷◌, ◌++◌, map, if◌then◌else◌, arith, Bool,
  ◌⊎◌, fail, ok, undefined,
}
use x_kbengine.Script.{Stream, std_err, std_out, same_stream, Interpreter, Hook, new_hook, Output}
use x_kbengine.Script.Engine.{Engine, Setup, Run, run_buffered}
use x_kbengine.Script.Engine
use x_kbengine.Script.Restore.{run_buffered-get, uninstall-install}
use x_kbengine.Script.Writes.{joined}
use x_kbengine.Script.Objects.{Arguments, bad_args, text, any_lacks, py_writes, py_writes-joined}
use x_kbengine.Script.Types.{
  Class, no_types, engine_rounds, install_types, uninstall_types, install_script, uninstall_script,
  assign_type,
}
use x_kbengine.Prelude.Int.{negsuc}

abbrev Streams : Type 0
Streams = Stream → Option ℕ

abbrev assign : Streams → Stream → ℕ → Streams
assign s name o other = if same_stream name other then some o else s other

assign_same : (s : Streams) (name : Stream) (o : ℕ) → assign s name o name ≡ some o
assign_same s std_err o = refl
assign_same s std_out o = refl

assign_other :
    (s : Streams) (name other : Stream) (o : ℕ)
    → same_stream name other ≡ false
    → assign s name o other ≡ s other
assign_other s name other o h = ground arith

abbrev streams : Interpreter
streams = record {
  State = Streams;
  imports = λ s. true;
  get = λ s name. s name;
  set = assign;
  imports_set = λ s name o. refl;
  get_set_same = assign_same;
  get_set_other = assign_other;
}

abbrev console : Streams
console std_err = some 2
console std_out = some 1

abbrev as_it_is : List ℕ → List ℕ
as_it_is l = l

abbrev nothing : Output
nothing = record { buffer = []; logged = [] }

-- A command that fails after it wrote to both streams.
abbrev failing : Run
failing = record {
  fine = false;
  writes = (std_out, 65 ∷ []) ∷ (std_err, 66 ∷ []) ∷ (std_err, 10 ∷ []) ∷ [];
}

-- The command puts other objects in the place of both streams.
abbrev redirects : Streams → Streams
redirects s = assign (assign s std_out 9) std_err 9

run_buffered-get_example :
    (streams.get
        (run_buffered streams as_it_is 7 8 true failing redirects nothing console).2
        std_err
      ≡ some 2)
    × (streams.get
          (run_buffered streams as_it_is 7 8 true failing redirects nothing console).2
          std_out
        ≡ some 9)
run_buffered-get_example =
    run_buffered-get streams as_it_is 7 8 true failing redirects nothing console 2 (λ t. refl) refl

abbrev setup : Setup
setup = record { initialized = true; module_made = true; extra_made = true }

uninstall-install_example :
    (e' : Engine) × (s' : Streams) × (Engine.install streams setup 7 8 Engine.init console
      ≡ (true, e', s'))
    × (streams.get s' std_err ≡ some 7)
    × (streams.get s' std_out ≡ some 8)
    × (streams.get (Engine.uninstall streams e' s').1 std_out ≡ streams.get console std_out)
uninstall-install_example =
    uninstall-install streams setup 7 8 2 1 Engine.init console std_out refl refl refl refl refl

-- "A", a call with two arguments, and a line feed.
abbrev calls : List Arguments
calls = text (65 ∷ []) ∷ bad_args ∷ text (10 ∷ []) ∷ []

py_writes-joined_example :
    ((any_lacks calls ≡ true)
      × (py_writes as_it_is calls (some (new_hook true)) nothing ≡ fail undefined))
    ⊎ ((any_lacks calls ≡ false)
        × ((lines : List (List ℕ)) × (h' : Hook) × (out' : Output) × (py_writes as_it_is calls
                (some (new_hook true))
                nothing
              ≡ ok (some h', out'))
            × (joined lines ++ h'.wbuffer ≡ 65 ∷ 10 ∷ [])
            × (out'.logged ≡ map as_it_is lines)
            × (out'.buffer ≡ joined (map as_it_is lines))))
py_writes-joined_example = py_writes-joined as_it_is calls (new_hook true) nothing refl

abbrev all_ready : Class → Bool
all_ready c = true

-- Three rounds: three references to each type are gone, and a fourth is given back by a second call of
-- `uninstallScript`, which does not reset the flag.
three_rounds : (engine_rounds setup all_ready 3 no_types).std_out.taken ≡ negsuc 2
unfolding engine_rounds install_types uninstall_types install_script uninstall_script assign_type
three_rounds = refl

uninstall_again :
    (uninstall_types (engine_rounds setup all_ready 3 no_types)).std_err.taken ≡ negsuc 3
unfolding engine_rounds install_types uninstall_types install_script uninstall_script assign_type
uninstall_again = refl
