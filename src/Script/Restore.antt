-- ===== src/Script/Restore.antt =====
-- The streams of libs/pyscript/script.cpp after its hooks are gone.
use x_kbengine.Prelude.{
  ℕ, ◌≡◌, refl, sym, ap, ◌∙◌, Bool, true, false, not, ◌&&◌, Option, none, some, List, if◌then◌else◌,
  arith, Bool-cases, inl, inr,
}
use x_kbengine.Prelude.Int.{ℤ, pos, negsuc}
use x_kbengine.Script.{
  Stream, std_err, std_out, same_stream, Interpreter, new_std, Hook, new_hook, Output, put_back,
  std_install, std_uninstall, install, uninstall, destroy,
}
use x_kbengine.Script.Engine.{
  Engine, Setup, Run, install_hooks, destroy_hook, deliver, run_buffered,
}
use x_kbengine.Script.Engine

module _ (p : Interpreter) where
  -- A hook that is in place, with what the stream was before.
  abbrev pub placed : Stream → ℕ → Hook → p.State → Hook
  placed name id h s = record h {
    std = some (record { id = id; old = p.get s name; is_install = true });
    is_install = true;
  }

  pub install_imported :
      (name : Stream) (id : ℕ) (h : Hook) (s : p.State)
      → p.imports s ≡ true
      → install p name id h s ≡ (placed name id h s, p.set s name id)
  unfolding install std_install
  install_imported name id h s i = rw i refl

  pub install_refused :
      (name : Stream) (id : ℕ) (h : Hook) (s : p.State)
      → p.imports s ≡ false
      → install p name id h s ≡ (record h { std = some (new_std id); is_install = false }, s)
  unfolding install std_install
  install_refused name id h s i = rw i refl

  pub destroy-placed :
      (name : Stream) (id : ℕ) (h : Hook) (s s' : p.State)
      → p.imports s' ≡ true
      → destroy p name (placed name id h s) s' ≡ put_back p name (p.get s name) s'
  unfolding destroy uninstall std_uninstall
  destroy-placed name id h s s' i = rw i refl

  get-put_back :
      (name other : Stream) (q : Option ℕ) (o : ℕ) (s : p.State)
      → q ≡ some o
      → p.get (put_back p name q s) other
        ≡ (if same_stream name other then some o else p.get s other)
  get-put_back name other none o s e = ground arith
  get-put_back std_err std_err (some q) o s e = p.get_set_same s std_err q ∙ e
  get-put_back std_out std_out (some q) o s e = p.get_set_same s std_out q ∙ e
  get-put_back std_err std_out (some q) o s e = p.get_set_other s std_err std_out q refl
  get-put_back std_out std_err (some q) o s e = p.get_set_other s std_out std_err q refl

  imports-put_back :
      (name : Stream) (q : Option ℕ) (s : p.State) → p.imports (put_back p name q s) ≡ p.imports s
  imports-put_back name none s = refl
  imports-put_back name (some q) s = p.imports_set s name q

  -- A hook takes a stream, which has an object, and gives it back.
  restored :
      (name other : Stream) (id o : ℕ) (s : p.State)
      → p.get s name ≡ some o
      → p.get (put_back p name (p.get s name) (p.set s name id)) other ≡ p.get s other
  restored name other id o s e =
      get-put_back name other (p.get s name) o (p.set s name id) e ∙ by_stream name other e
    where
      by_stream :
          (name' other' : Stream)
          → p.get s name' ≡ some o
          → (if same_stream name' other' then some o else p.get (p.set s name' id) other')
            ≡ p.get s other'
      by_stream std_err std_err e' = sym e'
      by_stream std_out std_out e' = sym e'
      by_stream std_err std_out e' = p.get_set_other s std_err std_out id refl
      by_stream std_out std_err e' = p.get_set_other s std_out std_err id refl

  pub destroy_unplaced :
      (name : Stream) (h : Hook) (s : p.State) → h.is_install ≡ false → destroy p name h s ≡ s
  unfolding destroy
  destroy_unplaced name h s e = ap (λ b. if b then (uninstall p name h s).2 else s) e

  -- A command runs with a buffer. Afterwards `sys.stderr` is the object that it was before, on every
  -- path: whether `sys` could be imported, whether there is a module `__main__`, whether the command
  -- failed, and whether it replaced the streams. `sys.stdout` is the object that the command left there,
  -- if `sys` can be imported and there is a module `__main__`, and the one that it was before otherwise.
  -- `sys.stderr` has an object at first, and the command leaves `sys` as easy to import as it was.
  pub run_buffered-get :
      (narrow : List ℕ → List ℕ) (id id' : ℕ) (has_main : Bool) (run : Run)
      (changes : p.State → p.State) (o : Output) (s : p.State) (err : ℕ)
      → ((t : p.State) → p.imports (changes t) ≡ p.imports t)
      → p.get s std_err ≡ some err
      → (p.get (run_buffered p narrow id id' has_main run changes o s).2 std_err ≡ p.get s std_err)
        × (p.get (run_buffered p narrow id id' has_main run changes o s).2 std_out
            ≡ p.get (if p.imports s && has_main then changes (p.set s std_err id) else s) std_out)
  unfolding run_buffered
  run_buffered-get narrow id id' has_main run changes o s err kept e =
      elim (Bool-cases (p.imports s)) [
        | inl i ↦ rw (i, install_imported std_err id (new_hook true) s i) (by_main i has_main)
        | inr i ↦
            rw
              (
                i,
                install_refused std_err id (new_hook true) s i,
                install_refused std_out id' (new_hook true) s i,
              )
              (ap (λ t. p.get t std_err) untouched, ap (λ t. p.get t std_out) untouched)
      ]
    where
      refused : ℕ → Hook
      refused n = record (new_hook true) { std = some (new_std n); is_install = false }

      untouched : destroy p std_err (refused id) (destroy p std_out (refused id') s) ≡ s
      untouched =
          destroy_unplaced std_err (refused id) (destroy p std_out (refused id') s) refl
          ∙ destroy_unplaced std_out (refused id') s refl

      over : p.State → p.State
      over t =
          destroy p std_err (placed std_err id (new_hook true) s)
            (destroy p std_out (new_hook true) t)

      given_back :
          (t : p.State) (name : Stream)
          → p.imports t ≡ true
          → p.get (over t) name ≡ (if same_stream std_err name then some err else p.get t name)
      given_back t name i =
          ap (λ u. p.get (destroy p std_err (placed std_err id (new_hook true) s) u) name)
            (destroy_unplaced std_out (new_hook true) t refl)
          ∙ ap (λ u. p.get u name) (destroy-placed std_err id (new_hook true) s t i)
          ∙ get-put_back std_err name (p.get s std_err) err t e

      s1 : p.State
      s1 = p.set s std_err id

      result : Bool → ℤ × Output × p.State
      result b = if not b then (negsuc 0, o, over s1) else (
        if run.fine then pos 0 else negsuc 0,
        deliver p narrow s1 run.writes (placed std_err id (new_hook true) s) (new_hook true) o,
        over (changes s1),
      )

      by_main :
          p.imports s ≡ true
          → (b : Bool)
          → (p.get (result b).2 std_err ≡ p.get s std_err)
            × (p.get (result b).2 std_out ≡ p.get (if b then changes s1 else s) std_out)
      by_main i false =
          let i1 : p.imports s1 ≡ true = p.imports_set s std_err id ∙ i in
          (
            given_back s1 std_err i1 ∙ sym e,
            given_back s1 std_out i1 ∙ p.get_set_other s std_err std_out id refl,
          )
      by_main i true =
          let i1 : p.imports (changes s1) ≡ true = kept s1 ∙ p.imports_set s std_err id ∙ i in
          (given_back (changes s1) std_err i1 ∙ sym e, given_back (changes s1) std_out i1)

  -- The engine's two hooks are installed and later removed: both streams are the objects that they were.
  -- Both have an object at first, and the interpreter and the module can be set up.
  pub uninstall-install :
      (setup : Setup) (id id' err out : ℕ) (e : Engine) (s : p.State) (name : Stream)
      → p.imports s ≡ true
      → setup.initialized ≡ true
      → setup.module_made ≡ true
      → p.get s std_err ≡ some err
      → p.get s std_out ≡ some out
      → (e' : Engine) × (s' : p.State) × (Engine.install p setup id id' e s
          ≡ (setup.extra_made, e', s'))
        × (p.get s' std_err ≡ some id)
        × (p.get s' std_out ≡ some id')
        × (p.get (Engine.uninstall p e' s').1 name ≡ p.get s name)
  unfolding Engine.install install_hooks Engine.uninstall
  uninstall-install setup id id' err out e s name i ready made f g =
      let s1 = p.set s std_err id in
      let s2 = p.set s1 std_out id' in
      let i1 : p.imports s1 ≡ true = p.imports_set s std_err id ∙ i in
      let i2 : p.imports s2 ≡ true = p.imports_set s1 std_out id' ∙ i1 in
      let e' : Engine = record e {
        has_module = true;
        has_extra_module = setup.extra_made;
        std_err_hook = some (placed std_err id (new_hook false) s);
        std_out_hook = some (placed std_out id' (new_hook false) s1);
      } in
      (
        e',
        s2,
        rw
            (
              ready,
              made,
              install_imported std_err id (new_hook false) s i,
              install_imported std_out id' (new_hook false) s1 i1,
            )
            refl,
        p.get_set_other s1 std_out std_err id' refl ∙ p.get_set_same s std_err id,
        p.get_set_same s1 std_out id',
        ap (λ t. p.get t name)
              (ap (destroy p std_out (placed std_out id' (new_hook false) s1))
                  (destroy-placed std_err id (new_hook false) s s2 i2)
                ∙ destroy-placed std_out id' (new_hook false) s1 t1
                    (imports-put_back std_err (p.get s std_err) s2 ∙ i2))
            ∙ get-put_back std_out name (p.get s1 std_out) out t1 g1
            ∙ by_stream name,
      )
    where
      s1' : p.State
      s1' = p.set s std_err id

      s2' : p.State
      s2' = p.set s1' std_out id'

      t1 : p.State
      t1 = put_back p std_err (p.get s std_err) s2'

      g1 : p.get s1' std_out ≡ some out
      g1 = p.get_set_other s std_err std_out id refl ∙ g

      by_stream :
          (name' : Stream)
          → (if same_stream std_out name' then some out else p.get t1 name') ≡ p.get s name'
      by_stream std_out = sym g
      by_stream std_err = get-put_back std_err std_err (p.get s std_err) err s2' f ∙ sym f
