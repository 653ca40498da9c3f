-- ===== src/Script/Engine.antt =====
-- libs/pyscript/script.cpp: the hooks that the engine installs, for good and for one command.
use x_kbengine.Prelude.{
  ℕ, Bool, true, false, not, ◌&&◌, Option, none, some, List, [], ◌∷◌, ◌==◌, if◌then◌else◌,
}
use x_kbengine.Prelude.Int.{ℤ, pos, negsuc}
use x_kbengine.Script.{Stream, std_err, std_out, Interpreter, Hook, new_hook, Output, on_write}
use x_kbengine.Script

-- `Script`, with its two hooks; of its modules, whether they were made.
pub record Engine : Type 0 where
  pub has_module : Bool
  pub has_extra_module : Bool
  pub std_err_hook : Option Hook
  pub std_out_hook : Option Hook

-- `Script()`
abbrev pub init : Engine
init = record {
  has_module = false;
  has_extra_module = false;
  std_err_hook = none;
  std_out_hook = none;
}

-- Which calls of the interpreter succeed: `Py_Initialize`, and making the module and the extra one.
pub record Setup : Type 0 where
  pub initialized : Bool
  pub module_made : Bool
  pub extra_made : Bool

-- What a command does that runs: whether it ends without an exception, and what it writes to which
-- stream, in order.
pub record Run : Type 0 where
  pub fine : Bool
  pub writes : List (Stream × List ℕ)

module _ (p : Interpreter) where
  -- The two hooks are tried in order; the second only if the first is in place.
  unfoldable pub install_hooks : ℕ → ℕ → Engine → p.State → Bool × Engine × p.State
  install_hooks id id' e s =
      let (err, s1) = Script.install p std_err id (new_hook false) s in
      let (out, s2) =
        if err.is_install
        then Script.install p std_out id' (new_hook false) s1
        else (new_hook false, s1) in
      if err.is_install && out.is_install
      then (true, record e { std_err_hook = some err; std_out_hook = some out }, s2)
      else (
        false,
        record e { std_err_hook = none; std_out_hook = none },
        Script.destroy p std_out out (Script.destroy p std_err err s2),
      )

  -- `id` and `id'` are the identities of the objects for the streams.
  unfoldable pub install : Setup → ℕ → ℕ → Engine → p.State → Bool × Engine × p.State
  install setup id id' e s =
      if not setup.initialized
      then (false, e, s)
      else if not setup.module_made
      then (false, record e { has_module = false }, s)
      else let (done, e1, s1) = install_hooks id id' (record e { has_module = true }) s in
        if done
        then (setup.extra_made, record e1 { has_extra_module = setup.extra_made }, s1)
        else (false, e1, s1)

  abbrev pub destroy_hook : Stream → Option Hook → p.State → p.State
  destroy_hook name none s = s
  destroy_hook name (some h) s = Script.destroy p name h s

  unfoldable pub uninstall : Engine → p.State → Engine × p.State
  uninstall e s = (
    record e { std_err_hook = none; std_out_hook = none },
    destroy_hook std_out e.std_out_hook (destroy_hook std_err e.std_err_hook s),
  )

  -- The hook's object is the one that the stream's writes go to.
  abbrev pub receives : Hook → Option ℕ → Bool
  receives h none = false
  receives h (some o) = elim h.std [ none ↦ false | some d ↦ d.id == o ]

  -- A command's writes, each to the object that is the stream at the time. A command that replaces
  -- the streams is taken to do so after it wrote.
  unfoldable pub deliver :
      (List ℕ → List ℕ) → p.State → List (Stream × List ℕ) → Hook → Hook → Output → Output
  deliver narrow s [] err out o = o
  deliver narrow s ((name, msg) ∷ writes) err out o =
      let (err', o') = on_write narrow msg err o in
      let (out', o'') = on_write narrow msg out o in
      let to_err = deliver narrow s writes err' out o' in
      let to_out = deliver narrow s writes err out' o'' in
      let past = deliver narrow s writes err out o in
      if receives err (p.get s name)
      then to_err
      else if receives out (p.get s name)
      then to_out
      else past

  -- `run_simpleString` with a buffer, which starts with what the caller has in it. `has_main` says
  -- whether there is the module `__main__`, and `changes` what the command that runs does to the
  -- interpreter, where it may replace the streams.
  unfoldable pub run_buffered :
      (List ℕ → List ℕ)
      → ℕ
      → ℕ
      → Bool
      → Run
      → (p.State → p.State)
      → Output
      → p.State
      → ℤ × Output × p.State
  run_buffered narrow id id' has_main run changes o s =
      let (err, s1) = Script.install p std_err id (new_hook true) s in
      let (out, s2) =
        if err.is_install
        then (new_hook true, s1)
        else Script.install p std_out id' (new_hook true) s1 in
      let over = λ (t : p.State). Script.destroy p std_err err (Script.destroy p std_out out t) in
      if not err.is_install && not out.is_install
      then (negsuc 0, o, over s2)
      else if not has_main
      then (negsuc 0, o, over s2)
      else (
        if run.fine then pos 0 else negsuc 0,
        deliver narrow s2 run.writes err out o,
        over (changes s2),
      )

  unfoldable pub run_simple_string :
      (List ℕ → List ℕ)
      → ℕ
      → ℕ
      → Bool
      → List ℕ
      → Run
      → (p.State → p.State)
      → Option Output
      → p.State
      → ℤ × Option Output × p.State
  run_simple_string narrow id id' has_main [] run changes o s = (pos 0, o, s)
  run_simple_string narrow id id' has_main (c ∷ command) run changes none s =
      (pos 0, none, changes s)
  run_simple_string narrow id id' has_main (c ∷ command) run changes (some o) s =
      let (code, o', s') = run_buffered narrow id id' has_main run changes o s in
      (code, some o', s')
