-- ===== src/Script/References.antt =====
-- The references to the type objects of libs/pyscript/scriptstdout.cpp and scriptstderr.cpp, while
-- libs/pyscript/script.cpp is installed and uninstalled.
use x_kbengine.Prelude.{ℕ, zero, suc, ◌+◌, ◌≡◌, refl, ap, ◌∙◌, Bool, true, some, [], ◌∷◌, arith}
use x_kbengine.Prelude.Int.{negsuc}
use x_kbengine.Script.Engine.{Setup}
use x_kbengine.Script.Types.{
  Class, script_std_out, script_std_err, TypeObject, Types, at_start, no_types, std_out_name,
  std_err_name, assign_type, get_script_object_type, install_script, uninstall_script,
  install_types, uninstall_types, engine_rounds,
}

abbrev short_of : ℕ → TypeObject
short_of n = record { taken = negsuc n; is_installed = true }

abbrev after : ℕ → Types
after n = record {
  object = at_start;
  std_out = short_of n;
  std_err = short_of n;
  registered = (std_out_name, script_std_out) ∷ (std_err_name, script_std_err) ∷ [];
}

module _ (setup : Setup) (is_ready : Class → Bool) where
  abbrev Works : Type 0
  Works =
      (setup.initialized ≡ true)
      × (setup.module_made ≡ true)
      × (is_ready script_std_out ≡ true)
      × (is_ready script_std_err ≡ true)

  first_round : Works → uninstall_types (install_types setup is_ready no_types) ≡ after 0
  unfolding install_types uninstall_types install_script uninstall_script assign_type
  first_round (i, m, o, e) = rw (i, m, o, e) refl

  next_round :
      (n : ℕ) → Works → uninstall_types (install_types setup is_ready (after n)) ≡ after (suc n)
  unfolding install_types uninstall_types install_script uninstall_script assign_type
  next_round n (i, m, o, e) = rw (i, m, o, e) refl

  engine_rounds-after : (n k : ℕ) → Works → engine_rounds setup is_ready n (after k) ≡ after (n + k)
  unfolding engine_rounds
  engine_rounds-after zero k w = ap after (omega arith)
  engine_rounds-after (suc n) k w =
      ap (engine_rounds setup is_ready n) (next_round k w)
      ∙ engine_rounds-after n (suc k) w
      ∙ ap after (omega arith)

  engine_rounds-no_types : (n : ℕ) → Works → engine_rounds setup is_ready (suc n) no_types ≡ after n
  unfolding engine_rounds
  engine_rounds-no_types n w =
      ap (engine_rounds setup is_ready n) (first_round w)
      ∙ engine_rounds-after n 0 w
      ∙ ap after (omega arith)

-- The engine is installed and uninstalled, once or more. Each round gives back one reference more to each
-- of the two types than it took, so that after n + 1 rounds n + 1 references are gone that this code
-- never took; and both types are still found by their names. The interpreter, the module and the types
-- can be set up.
pub engine_rounds-taken :
    (setup : Setup) (is_ready : Class → Bool) (n : ℕ)
    → setup.initialized ≡ true
    → setup.module_made ≡ true
    → is_ready script_std_out ≡ true
    → is_ready script_std_err ≡ true
    → ((engine_rounds setup is_ready (suc n) no_types).std_out.taken ≡ negsuc n)
      × ((engine_rounds setup is_ready (suc n) no_types).std_err.taken ≡ negsuc n)
      × (get_script_object_type std_out_name
            (engine_rounds setup is_ready (suc n) no_types).registered
          ≡ some script_std_out)
      × (get_script_object_type std_err_name
            (engine_rounds setup is_ready (suc n) no_types).registered
          ≡ some script_std_err)
unfolding get_script_object_type
engine_rounds-taken setup is_ready n i m o e =
    let there = engine_rounds-no_types setup is_ready n (i, m, o, e) in
    (
      ap (λ t. t.std_out.taken) there,
      ap (λ t. t.std_err.taken) there,
      ap (λ t. get_script_object_type std_out_name t.registered) there,
      ap (λ t. get_script_object_type std_err_name t.registered) there,
    )
