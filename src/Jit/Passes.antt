-- ===== src/Jit/Passes.antt =====
-- `JIT::optimizeModule` of pefa/jit/jit.cpp: the passes over a module, in the order in which they run.
use pefa.Base.{
  ℕ, zero, suc, ◌+◌, true, false, List, [], ◌∷◌, ◌++◌, some, Outcome, ok, Fault, ◌>>=◌, deref,
}
use pefa.Jit.Interface.{Pass, verifier, target_library_info, target_transform_info, Llvm}

module _ {Mod Layers Machine Layout : Type 0} (llvm : Llvm Mod Layers Machine Layout)
    (machine : Machine) where
  -- The passes of the module, and those of its functions.
  unfoldable pub add_opt_passes : List Pass → List Pass → List Pass × List Pass
  add_opt_passes passes fn_passes =
      let builder = llvm.adjust_pass_manager machine (record (llvm.new_pass_builder) {
        opt_level = 3;
        size_level = 0;
        inliner = some (record { opt_level = 3; size_level = 0; disable_hot_call_site = false });
        loop_vectorize = true;
        slp_vectorize = true;
      }) in
      (
        passes ++ llvm.populate_module_passes builder,
        fn_passes ++ llvm.populate_function_passes builder,
      )

  unfoldable pub add_link_passes : List Pass → List Pass
  add_link_passes passes =
      passes
      ++ llvm.populate_lto_passes (record (llvm.new_pass_builder) {
        verify_input = true;
        inliner = some (record { opt_level = 3; size_level = 0; disable_hot_call_site = false });
      })

  -- The loop over the functions of the module.
  unfoldable pub run_functions : List Pass → ℕ → ℕ → Mod → Mod
  run_functions fn_passes zero i m = m
  run_functions fn_passes (suc functions) i m =
      run_functions fn_passes functions (i + 1) (llvm.run_function_passes fn_passes i m)

  unfoldable pub run_passes : List Pass → Mod → Outcome Mod
  run_passes [] m = ok m
  run_passes (pass ∷ passes) m = do
    after ← deref (llvm.run_pass machine pass m) Fault.llvm_error
    run_passes passes after

  unfoldable pub optimize_module : Mod → Outcome Mod
  unfolding add_opt_passes add_link_passes run_functions run_passes
  optimize_module m =
      let (passes, fn_passes) =
        add_opt_passes (verifier ∷ target_library_info ∷ target_transform_info ∷ [])
          (target_transform_info ∷ []) in
      let initialized = llvm.do_initialization fn_passes m in
      let on_functions = run_functions fn_passes (llvm.function_count initialized) 0 initialized in
      run_passes (add_link_passes passes ++ verifier ∷ [])
        (llvm.do_finalization fn_passes on_functions)
