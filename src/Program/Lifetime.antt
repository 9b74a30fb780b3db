-- ===== src/Program/Lifetime.antt =====
-- A kernel on an idle JIT, from its compilation to its destructor.
use pefa.Base.{
  length, ◌+◌, ℕ, ◌≡◌, ◌∙◌, refl, ap, List, [], ◌∷◌, ◌++◌, String, Option, none, some, Outcome, ok,
  throw, fault, Exception, Fault, ◌>>=◌, inl, inr, Outcome-cases,
}
use pefa.Base.Exec.{Exec, call, after, scoped}
use pefa.Arrow.{Arrow}
use pefa.Kernel.Ir.{Floats}
use pefa.Kernel.Object.{Compiled, FilterKernel}
use pefa.Kernel.Object
use pefa.Jit.Interface.{Body, Llvm}
use pefa.Jit.{Jit}
use pefa.Jit.Kernels.{KernelImpl, emit_code, compile, destroy, filter_name, filter_remaining_name}
use pefa.Jit.Laws.{Linked, LlvmLaws}
use pefa.Jit.Compiled.{holder, installed, Installed}
use pefa.Jit.Reuse.{compile-Own, compile-emit_code, destroy-compile}
use pefa.Jit.Verified.{AllVerified, emitted_verified}
use pefa.Program.Called.{Callable, own_kernel}
use pefa.Program.Laws.{CodeLaws, IsIdle}
use pefa.Program.Same.{Same, Same-leave, Spent, Spent-leave}

module _ {Mod Layers Machine Layout : Type 0} (arrow : Arrow) (floats : Floats)
    (llvm : Llvm Mod Layers Machine Layout) (machine : Machine) (laws : LlvmLaws llvm machine)
    (code_at : Layers → ℕ → Option Body) (code_laws : CodeLaws llvm machine laws code_at)
    (verified : AllVerified llvm machine laws) where
  module _ (jit : Jit Layers Machine Layout) (idle : IsIdle llvm machine laws jit)
      (kernel : KernelImpl) where
    unheld : (name : String) → holder llvm machine laws jit name ≡ none
    unheld name = rw (idle.no_modules) refl

    compile_throws :
        (x : Exception)
        → emit_code arrow floats kernel.field kernel.expr ≡ throw x
        → compile arrow floats llvm jit kernel ≡ throw x
    unfolding compile
    compile_throws x e = rw e refl

    compile_faults :
        (x : Fault)
        → emit_code arrow floats kernel.field kernel.expr ≡ fault x
        → compile arrow floats llvm jit kernel ≡ fault x
    unfolding compile
    compile_faults x e = rw e refl

    own_module :
        (code : Compiled)
        → emit_code arrow floats kernel.field kernel.expr ≡ ok code
        → Installed llvm machine laws kernel code jit
            (llvm.module_key jit.session)
            (llvm.module_key jit.session)
            (compile arrow floats llvm jit kernel)
    own_module code emitted =
        compile-Own arrow floats llvm machine laws jit kernel code idle.valid emitted
          (emitted_verified arrow floats llvm machine laws verified kernel.field kernel.expr code
            emitted)
          (unheld (filter_name kernel.field)) (unheld (filter_remaining_name kernel.field))

    abbrev owned : KernelImpl
    owned =
        installed llvm machine laws kernel (llvm.module_key jit.session)
          (llvm.module_key jit.session) (llvm.module_key jit.session)

    module _ (code : Compiled)
        (i : Installed llvm machine laws kernel code jit
          (llvm.module_key jit.session)
          (llvm.module_key jit.session)
          (compile arrow floats llvm jit kernel)) where
      abbrev only_module : Linked Mod
      only_module = record { key = llvm.module_key jit.session; contents = i.contents }

      only_linked : laws.linked i.after.layers ≡ only_module ∷ []
      only_linked =
          i.linked_after ∙ ap (λ (ls : List (Linked Mod)). ls ++ only_module ∷ []) idle.no_modules

      placed_own :
          (name : String) (b : Body)
          → laws.defines i.contents name ≡ some b
          → code_at i.after.layers (laws.placed (llvm.module_key jit.session) name) ≡ some b
      placed_own name b defined =
          code_laws.placed_code i.after.layers only_module name b (rw only_linked ((λ h. h), tt))
            (rw only_linked (inl refl)) defined

      owned-Callable : Callable arrow floats (code_at i.after.layers) owned code
      owned-Callable = record {
        compiled = refl;
        filter_at = placed_own (filter_name kernel.field) _ i.filter_defined;
        remaining_at = placed_own (filter_remaining_name kernel.field) _ i.remaining_defined;
      }

      -- The destructor leaves the JIT without modules again.
      destroy-owned :
          emit_code arrow floats kernel.field kernel.expr ≡ ok code
          → (last : Jit Layers Machine Layout) × (destroy llvm i.after owned ≡ ok last)
            × IsIdle llvm machine laws last
            × (length last.resolvers ≡ length jit.resolvers + 1)
      destroy-owned emitted =
          let (last, runs, valid, linked, counted) =
            destroy-compile arrow floats llvm machine laws jit kernel code idle.valid emitted (
              emitted_verified arrow floats llvm machine laws verified kernel.field kernel.expr code
                emitted) in
          (
            last,
            rw (i.returns) at runs,
            record { valid = valid; no_modules = linked ∙ idle.no_modules },
            counted,
          )

    -- The kernel's life: it is compiled, does what it is made for, and is destroyed.
    abbrev life :
        {A : Type 0}
        → (KernelImpl → Exec (Jit Layers Machine Layout) A)
        → Outcome A × Jit Layers Machine Layout
    life body =
        let c = call (λ j. compile arrow floats llvm j kernel) jit in
        after (c.0) (λ k. scoped (λ j. destroy llvm j k) (body k)) (c.1)

    module _ {A : Type 0} (body : KernelImpl → Exec (Jit Layers Machine Layout) A)
        (plain : FilterKernel → Outcome A)
        (each : (code : Compiled) (k : KernelImpl) (j : Jit Layers Machine Layout)
          → Callable arrow floats (code_at j.layers) k code
          → body k j ≡ (plain (own_kernel kernel.field kernel.expr code), j)) where
      life-ok :
          (code : Compiled)
          → emit_code arrow floats kernel.field kernel.expr ≡ ok code
          → Same
              (IsIdle llvm machine laws)
              (plain (own_kernel kernel.field kernel.expr code))
              (life body)
      life-ok code emitted =
          let i = own_module code emitted in
          let (last, runs, idle_last, counted) = destroy-owned code i emitted in
          rw (i.returns, call, each code owned (i.after) (owned-Callable code i))
            (Same-leave (IsIdle llvm machine laws)
              (plain (own_kernel kernel.field kernel.expr code)) (λ j. destroy llvm j owned)
              (i.after) runs idle_last)

      -- A kernel that lives on an idle JIT does what the kernel does on its own.
      pub life-Same :
          Same
            (IsIdle llvm machine laws)
            (Object.compile arrow floats (Object.create_cpu kernel.field kernel.expr) >>= plain)
            (life body)
      unfolding Object.create_cpu
      life-Same =
          let own = Object.create_cpu kernel.field kernel.expr in
          elim (Outcome-cases (emit_code arrow floats kernel.field kernel.expr)) [
            | inl (code, e) ↦ rw (compile-emit_code own arrow floats, e) (life-ok code e)
            | inr (inl (x, e)) ↦
                rw (compile-emit_code own arrow floats, e, compile_throws x e, call) (refl, idle)
            | inr (inr (x, e)) ↦
                rw (compile-emit_code own arrow floats, e, compile_faults x e, call) (refl, tt)
          ]

      life-Spent-ok :
          (code : Compiled)
          → emit_code arrow floats kernel.field kernel.expr ≡ ok code
          → Spent
              (λ (j : Jit Layers Machine Layout). length j.resolvers)
              (length jit.resolvers + 1)
              (life body)
      life-Spent-ok code emitted =
          let i = own_module code emitted in
          let (last, runs, idle_last, counted) = destroy-owned code i emitted in
          rw (i.returns, call, each code owned (i.after) (owned-Callable code i))
            (Spent-leave _ _ (plain (own_kernel kernel.field kernel.expr code))
              (λ j. destroy llvm j owned) (i.after) runs counted)

      -- Where it returns, it leaves one resolver more.
      pub life-Spent :
          Spent
            (λ (j : Jit Layers Machine Layout). length j.resolvers)
            (length jit.resolvers + 1)
            (life body)
      life-Spent = elim (Outcome-cases (emit_code arrow floats kernel.field kernel.expr)) [
        | inl (code, e) ↦ life-Spent-ok code e
        | inr (inl (x, e)) ↦ rw (compile_throws x e, call) tt
        | inr (inr (x, e)) ↦ rw (compile_faults x e, call) tt
      ]
