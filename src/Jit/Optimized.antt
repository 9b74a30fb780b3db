-- ===== src/Jit/Optimized.antt =====
-- What `optimizeModule` keeps.
use pefa.Base.{ℕ, zero, suc, ◌+◌, ◌≡◌, ◌∙◌, refl, true, List, [], ◌∷◌, ◌++◌, String, ok}
use pefa.Jit.Interface.{Pass, verifier, target_library_info, target_transform_info, Llvm}
use pefa.Jit.Passes.{add_opt_passes, add_link_passes, run_functions, run_passes, optimize_module}
use pefa.Jit.Laws.{LlvmLaws}

module _ {Mod Layers Machine Layout : Type 0} (llvm : Llvm Mod Layers Machine Layout)
    (machine : Machine) (laws : LlvmLaws llvm machine) where
  -- A verified module whose external functions do what those of `m` do.
  pub record Kept (m after : Mod) : Type 0 where
    pub verified : laws.is_verified after ≡ true
    pub same : (f : String) → laws.defines after f ≡ laws.defines m f

  run_functions-Kept :
      (passes : List Pass) (functions i : ℕ) (m : Mod)
      → laws.is_verified m ≡ true
      → Kept m (run_functions llvm machine passes functions i m)
  unfolding run_functions
  run_functions-Kept passes zero i m h = record { verified = h; same = λ f. refl }
  run_functions-Kept passes (suc functions) i m h =
      let rest =
        run_functions-Kept passes functions (i + 1) (llvm.run_function_passes passes i m)
          (laws.function_passes_verified passes i m h) in
      record {
        verified = rest.verified;
        same = λ f. rest.same f ∙ laws.function_passes_keep passes i m f;
      }

  run_passes-Kept :
      (passes : List Pass) (m : Mod)
      → laws.is_verified m ≡ true
      → (after : Mod) × (run_passes llvm machine passes m ≡ ok after) × Kept m after
  unfolding run_passes
  run_passes-Kept [] m h = (m, refl, record { verified = h; same = λ f. refl })
  run_passes-Kept (pass ∷ passes) m h =
      let (next, runs, verified, same) = laws.pass_runs pass m h in
      let (after, runs_on, kept) = run_passes-Kept passes next verified in
      (
        after,
        rw runs runs_on,
        record { verified = kept.verified; same = λ f. kept.same f ∙ same f },
      )

  -- A verified module is optimized, without a fault, to a verified module whose external functions
  -- do what they did.
  pub optimize_module-Kept :
      (m : Mod)
      → laws.is_verified m ≡ true
      → (after : Mod) × (optimize_module llvm machine m ≡ ok after) × Kept m after
  unfolding optimize_module
  optimize_module-Kept m h =
      let (passes, fn_passes) =
        add_opt_passes llvm machine (verifier ∷ target_library_info ∷ target_transform_info ∷ [])
          (target_transform_info ∷ []) in
      let initialized = llvm.do_initialization fn_passes m in
      let functions =
        run_functions-Kept fn_passes (llvm.function_count initialized) 0 initialized
          (laws.initialization_verified fn_passes m h) in
      let finalized =
        llvm.do_finalization fn_passes
          (run_functions llvm machine fn_passes (llvm.function_count initialized) 0 initialized) in
      let (after, runs, kept) =
        run_passes-Kept (add_link_passes llvm machine passes ++ verifier ∷ []) finalized
          (laws.finalization_verified fn_passes _ functions.verified) in
      (
        after,
        runs,
        record {
          verified = kept.verified;
          same = λ f.
              kept.same f
              ∙ laws.finalization_keeps fn_passes _ f
              ∙ functions.same f
              ∙ laws.initialization_keeps fn_passes m f;
        },
      )
