-- ===== src/Script/Types.antt =====
-- The type objects of libs/pyscript: `installScript`, `uninstallScript` and `getScriptObjectType` of
-- scriptobject.h and scriptobject.cpp, which scriptstdout.h and scriptstderr.h repeat for their classes,
-- and when libs/pyscript/script.cpp calls them.
use x_kbengine.Prelude.{
  ℕ, zero, suc, Bool, true, false, ◌&&◌, Option, none, some, List, [], ◌∷◌, ◌==◌, if◌then◌else◌,
}
use x_kbengine.Prelude.Int.{ℤ, pos, increment, decrement}
use x_kbengine.Script.Engine.{Setup}

pub data Class : Type 0 where
  script_object script_std_out script_std_err : Class

-- `taken` counts the references to the type object that this code took less those it gave back.
-- `is_installed` is the class's flag `_…_py_installed`.
pub record TypeObject : Type 0 where
  pub taken : ℤ
  pub is_installed : Bool

-- The statics of the three classes, and `scriptObjectTypes`, of which only single entries are used.
pub record Types : Type 0 where
  pub object : TypeObject
  pub std_out : TypeObject
  pub std_err : TypeObject
  pub registered : List (List ℕ × Class)

abbrev pub at_start : TypeObject
at_start = record { taken = pos 0; is_installed = false }

abbrev pub no_types : Types
no_types = record { object = at_start; std_out = at_start; std_err = at_start; registered = [] }

abbrev pub type_of : Class → Types → TypeObject
type_of script_object t = t.object
type_of script_std_out t = t.std_out
type_of script_std_err t = t.std_err

abbrev pub set_type : Class → TypeObject → Types → Types
set_type script_object o t = record t { object = o }
set_type script_std_out o t = record t { std_out = o }
set_type script_std_err o t = record t { std_err = o }

abbrev pub same_text : List ℕ → List ℕ → Bool
same_text [] [] = true
same_text [] (d ∷ name') = false
same_text (c ∷ name) [] = false
same_text (c ∷ name) (d ∷ name') = (c == d) && same_text name name'

unfoldable pub get_script_object_type : List ℕ → List (List ℕ × Class) → Option Class
get_script_object_type name [] = none
get_script_object_type name ((other, c) ∷ types) =
    if same_text name other then some c else get_script_object_type name types

-- `scriptObjectTypes[name] = …`
unfoldable pub assign_type : List ℕ → Class → List (List ℕ × Class) → List (List ℕ × Class)
assign_type name c [] = (name, c) ∷ []
assign_type name c ((other, d) ∷ types) =
    let rest = assign_type name c types in
    if same_text name other then (other, c) ∷ types else (other, d) ∷ rest

-- `is_ready` is whether `PyType_Ready` succeeds, `has_module` whether there is a module to add the type
-- to. The reference for the module is taken whether or not the type can be added.
unfoldable pub install_script : Bool → Bool → List ℕ → Class → Types → Types
install_script is_ready has_module name c t =
    let o = type_of c t in
    let o' : TypeObject = record o {
      taken = if has_module then increment o.taken else o.taken;
      is_installed = true;
    } in
    if is_ready
    then record (set_type c o' t) { registered = assign_type name c t.registered }
    else t

unfoldable pub uninstall_script : Class → Types → Types
uninstall_script c t =
    let o = type_of c t in
    if o.is_installed then set_type c (record o { taken = decrement o.taken }) t else t

-- "ScriptStdOut" and "ScriptStdErr", the default names.
abbrev pub std_out_name : List ℕ
std_out_name = 83 ∷ 99 ∷ 114 ∷ 105 ∷ 112 ∷ 116 ∷ 83 ∷ 116 ∷ 100 ∷ 79 ∷ 117 ∷ 116 ∷ []

abbrev pub std_err_name : List ℕ
std_err_name = 83 ∷ 99 ∷ 114 ∷ 105 ∷ 112 ∷ 116 ∷ 83 ∷ 116 ∷ 100 ∷ 69 ∷ 114 ∷ 114 ∷ []

abbrev pub install_std_out : Bool → Bool → Types → Types
install_std_out is_ready has_module t =
    install_script is_ready has_module std_out_name script_std_out t

abbrev pub install_std_err : Bool → Bool → Types → Types
install_std_err is_ready has_module t =
    install_script is_ready has_module std_err_name script_std_err t

abbrev pub uninstall_std_out : Types → Types
uninstall_std_out t = uninstall_script script_std_out t

abbrev pub uninstall_std_err : Types → Types
uninstall_std_err t = uninstall_script script_std_err t

-- What `Script::install` does with the types, once the interpreter is there and its module was made;
-- `is_ready` is asked for each class.
unfoldable pub install_types : Setup → (Class → Bool) → Types → Types
install_types setup is_ready t =
    if setup.initialized && setup.module_made
    then install_std_err (is_ready script_std_err) false
        (install_std_out (is_ready script_std_out) false t)
    else t

-- What `Script::uninstall` does with them.
unfoldable pub uninstall_types : Types → Types
uninstall_types t = uninstall_std_err (uninstall_std_out t)

-- The engine is installed and uninstalled a number of times.
unfoldable pub engine_rounds : Setup → (Class → Bool) → ℕ → Types → Types
engine_rounds setup is_ready zero t = t
engine_rounds setup is_ready (suc n) t =
    engine_rounds setup is_ready n (uninstall_types (install_types setup is_ready t))
