-- ===== src/Loader/Library.antt =====
-- core/PlcLoader.cpp: `loadLibrary`, `unloadLibrary`, `initLogic` and `runLogic`. The calls of the dynamic linker are
-- parameters: whether `dlopen` succeeds at a path, and which symbols the library has.
use v_plc_runtime.Shared.{
  ℕ, ◌≡◌, refl, Bool, true, false, if◌then◌else◌, List, [], ◌∷◌, Option, none, some, Text, codes,
  either_branch,
}
use v_plc_runtime.Loader.{VarBinding, resolve_bindings}

-- The fields; a hook is the name of the symbol that it points to.
pub record Library : Type 0 where
  pub library_path : Text
  pub has_handle : Bool
  pub config_init_fn : Option Text
  pub config_run_fn : Option Text
  pub bindings : List VarBinding

-- The constructor.
unfoldable pub new_library : Library
new_library = record {
  library_path = [];
  has_handle = false;
  config_init_fn = none;
  config_run_fn = none;
  bindings = [];
}

-- `unloadLibrary`; the call of `dlclose` has no other effect here.
unfoldable pub unload_library : Library → Library
unload_library l = record l {
  has_handle = false;
  library_path = [];
  config_init_fn = none;
  config_run_fn = none;
  bindings = [];
}

abbrev pub is_empty : Text → Bool
is_empty [] = true
is_empty (c ∷ cs) = false

module _ (dlopen : Text → Bool) (has_symbol : Text → Bool) (dlsym : Text → Option ℕ) where
  -- A symbol, or else its fallback.
  unfoldable pub hook : Text → Text → Option Text
  hook name fallback =
      if has_symbol name then some name else if has_symbol fallback then some fallback else none

  -- `loadLibrary` behind `dlopen`
  unfoldable pub install : Text → Library → Library
  install path l = record l {
    has_handle = true;
    library_path = path;
    config_init_fn = hook (codes "config_init__") (codes "init");
    config_run_fn = hook (codes "config_run__") (codes "run");
    bindings = resolve_bindings dlsym;
  }

  -- `loadLibrary`
  unfoldable pub load_library : Text → Library → Library × Bool
  load_library path l =
      let unloaded : Library = unload_library l in
      if is_empty path
      then (unloaded, true)
      else if dlopen path
      then (install path unloaded, true)
      else (unloaded, false)

  -- `initLogic`, `runLogic`: the variables as the hook leaves them, by what the library's functions do.
  unfoldable pub call_hook :
      (Text → List VarBinding → List VarBinding) → Option Text → Library → Library
  call_hook runs none l = l
  call_hook runs (some name) l = record l { bindings = runs name l.bindings }

  unfoldable pub init_logic : (Text → List VarBinding → List VarBinding) → Library → Library
  init_logic runs l = call_hook runs l.config_init_fn l

  unfoldable pub run_logic : (ℕ → Text → List VarBinding → List VarBinding) → ℕ → Library → Library
  run_logic runs tick l = call_hook (runs tick) l.config_run_fn l

  -- How `loadLibrary` ends, whatever was loaded before: without logic, with the library of the path, or with nothing loaded.
  pub data Loaded (path : Text) (out : Library × Bool) : Type 0 where
    without_logic : is_empty path ≡ true → out ≡ (new_library, true) → Loaded path out
    with_logic :
        dlopen path ≡ true
        → out.1 ≡ true
        → out.0.library_path ≡ path
        → out.0.bindings ≡ resolve_bindings dlsym
        → out.0.config_run_fn ≡ hook (codes "config_run__") (codes "run")
        → Loaded path out
    refused : dlopen path ≡ false → out ≡ (new_library, false) → Loaded path out

  -- How the load of a library ends.
  pub load_library-Loaded : (path : Text) (l : Library) → Loaded path (load_library path l)
  unfolding load_library unload_library new_library install
  load_library-Loaded path l =
      either_branch (Loaded path) (is_empty path) _ _ (λ e. without_logic e refl)
        (λ _.
          either_branch (Loaded path) (dlopen path) _ _ (λ e. with_logic e refl refl refl refl)
            (λ e. refused e refl))
