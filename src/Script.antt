-- ===== src/Script.antt =====
-- libs/pyscript: the objects that take the place of `sys.stderr` and `sys.stdout`, and the hooks that
-- receive what is written to them. The two pairs of classes differ in the stream alone, which is an
-- argument here. The interpreter is a parameter; texts are lists of character codes.
pub mod Engine
pub mod Writes
pub mod Restore
pub mod Objects
pub mod Types
pub mod References
mod Tests
use x_kbengine.Prelude.{
  ℕ, ◌≡◌, Bool, true, false, ◌&&◌, Option, none, some, List, [], ◌∷◌, ◌++◌, ◌==◌, if◌then◌else◌,
}

pub data Stream : Type 0 where
  std_err std_out : Stream

abbrev pub same_stream : Stream → Stream → Bool
same_stream std_err std_err = true
same_stream std_err std_out = false
same_stream std_out std_err = false
same_stream std_out std_out = true

-- `PyImport_ImportModule("sys")`, and `PyObject_GetAttrString` and `PyObject_SetAttrString` on the
-- module's streams, whose objects are identities: an attribute that was set has its value, the others
-- stay, and the module can be imported as before.
pub record Interpreter : Type 1 where
  pub State : Type 0
  pub imports : State → Bool
  pub get : State → Stream → Option ℕ
  pub set : State → Stream → ℕ → State
  pub imports_set : (s : State) (name : Stream) (o : ℕ) → imports (set s name o) ≡ imports s
  pub get_set_same : (s : State) (name : Stream) (o : ℕ) → get (set s name o) name ≡ some o
  pub get_set_other :
      (s : State) (name other : Stream) (o : ℕ)
      → same_stream name other ≡ false
      → get (set s name o) other ≡ get s other

-- `ScriptStdErr` and `ScriptStdOut`; `id` is the object's identity.
pub record Std : Type 0 where
  pub id : ℕ
  pub old : Option ℕ
  pub is_install : Bool

abbrev pub new_std : ℕ → Std
new_std id = record { id = id; old = none; is_install = false }

-- `ScriptStdErrHook` and `ScriptStdOutHook`, with whether there is a buffer besides the log.
pub record Hook : Type 0 where
  pub std : Option Std
  pub is_install : Bool
  pub has_buffer : Bool
  pub wbuffer : List ℕ

abbrev pub new_hook : Bool → Hook
new_hook has_buffer = record {
  std = none;
  is_install = false;
  has_buffer = has_buffer;
  wbuffer = [];
}

-- What the hooks write to: the buffer, which two hooks share, and the log.
pub record Output : Type 0 where
  pub buffer : List ℕ
  pub logged : List (List ℕ)

module _ (p : Interpreter) where
  unfoldable pub std_install : Stream → Std → p.State → Bool × Std × p.State
  std_install name o s =
      if p.imports s
      then (true, record o { old = p.get s name; is_install = true }, p.set s name o.id)
      else (false, o, s)

  abbrev pub put_back : Stream → Option ℕ → p.State → p.State
  put_back name none s = s
  put_back name (some o) s = p.set s name o

  unfoldable pub std_uninstall : Stream → Std → p.State → Bool × Std × p.State
  std_uninstall name o s =
      if p.imports s
      then (true, record o { old = none; is_install = false }, put_back name o.old s)
      else (false, o, s)

  -- `id` is the identity of the object that is made.
  unfoldable pub install : Stream → ℕ → Hook → p.State → Hook × p.State
  install name id h s =
      let (done, o, s') = std_install name (new_std id) s in
      (record h { std = some o; is_install = done && o.is_install }, s')

  unfoldable pub uninstall : Stream → Hook → p.State → Bool × Hook × p.State
  uninstall name h s = elim h.std [
    | none ↦ (true, record h { is_install = false }, s)
    | some o ↦
        let (done, o', s') = std_uninstall name o s in
        if done
        then (true, record h { std = none; is_install = false }, s')
        else (false, record h { std = some o' }, s')
  ]

  -- The destructor of a hook.
  unfoldable pub destroy : Stream → Hook → p.State → p.State
  destroy name h s = if h.is_install then (uninstall name h s).2 else s

-- A message that starts with a line feed; the first character of an empty one is the terminating zero.
abbrev pub starts_line : List ℕ → Bool
starts_line [] = false
starts_line (c ∷ msg) = c == 10

-- `onWrite`; `narrow` is the conversion to UTF-8.
unfoldable pub on_write : (List ℕ → List ℕ) → List ℕ → Hook → Output → Hook × Output
on_write narrow msg h out =
    let text = h.wbuffer ++ msg in
    if starts_line msg
    then (
      record h { wbuffer = [] },
      record {
        buffer = if h.has_buffer then out.buffer ++ narrow text else out.buffer;
        logged = out.logged ++ narrow text ∷ [];
      },
    )
    else (record h { wbuffer = text }, out)
