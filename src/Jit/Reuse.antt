-- ===== src/Jit/Reuse.antt =====
-- One kernel after another on one JIT, and two at a time.
use mathlib.Core.Path.{subst}
use pefa.Base.{
  ℕ, ◌+◌, ◌≡◌, ◌∙◌, refl, sym, ap, true, length, Option, none, some, Outcome, ok, throw, fault,
  ◌>>=◌, returned_step, ok_inj, deref, Fault,
}
use pefa.Arrow.{Arrow}
use pefa.Kernel.Ir.{Ty, Value, Floats, from_arrow}
use pefa.Kernel.Emit.{gen_predicate_func}
use pefa.Kernel.Object.{Compiled, FilterKernel}
use pefa.Kernel.Object
use pefa.Jit.Interface.{Llvm}
use pefa.Jit.{Jit}
use pefa.Jit.Kernels.{
  KernelImpl, filter_name, filter_remaining_name, emit_code, kernel_module, compile, destroy,
}
use pefa.Jit.Laws.{Linked, erase, LlvmLaws}
use pefa.Jit.Table.{IsJit, remove_module-Removed, HasKey-append, erase_last}
use pefa.Jit.Compiled.{holder, owner, Installed, compile-Installed}

module _ {Mod Layers Machine Layout : Type 0} (arrow : Arrow) (floats : Floats)
    (llvm : Llvm Mod Layers Machine Layout) (machine : Machine) (laws : LlvmLaws llvm machine) where
  module _ (jit : Jit Layers Machine Layout) (kernel : KernelImpl) (code : Compiled)
      (valid : IsJit llvm machine laws jit)
      (emitted : emit_code arrow floats kernel.field kernel.expr ≡ ok code)
      (verified : laws.is_verified (kernel_module llvm machine kernel.field code) ≡ true) where
    -- The kernel is compiled, with functions whose owners are known.
    compile-owner :
        (filter remaining : ℕ)
        → owner llvm machine laws jit (filter_name kernel.field) ≡ filter
        → owner llvm machine laws jit (filter_remaining_name kernel.field) ≡ remaining
        → Installed llvm machine laws kernel code jit filter remaining
            (compile arrow floats llvm jit kernel)
    compile-owner filter remaining e f =
        subst
          (λ (k : ℕ).
            Installed llvm machine laws kernel code jit filter k
              (compile arrow floats llvm jit kernel))
          f
          (subst
            (λ (k : ℕ).
              Installed llvm machine laws kernel code jit k
                (owner llvm machine laws jit (filter_remaining_name kernel.field))
                (compile arrow floats llvm jit kernel))
            e
            (compile-Installed llvm machine laws arrow floats jit kernel code valid emitted
              verified))

    abbrev held_by : Option ℕ → ℕ
    held_by holder = elim holder [ none ↦ llvm.module_key jit.session | some key ↦ key ]

    -- On a valid JIT none of whose modules defines the kernel's two functions, and for a condition whose
    -- code is emitted and verified: `compile` returns the kernel with the two functions of its own module,
    -- which is linked under the kernel's key behind the modules that were there.
    pub compile-Own :
        holder llvm machine laws jit (filter_name kernel.field) ≡ none
        → holder llvm machine laws jit (filter_remaining_name kernel.field) ≡ none
        → Installed llvm machine laws kernel code jit
            (llvm.module_key jit.session)
            (llvm.module_key jit.session)
            (compile arrow floats llvm jit kernel)
    compile-Own no_filter no_remaining =
        compile-owner _ _ (ap held_by no_filter) (ap held_by no_remaining)

    -- On a valid JIT that has a module of key `key` whose functions are the first of the kernel's two
    -- names, and for a condition whose code is emitted and verified: `compile` returns the kernel with the
    -- two functions of that module, and not with those of its own.
    pub compile_shadowed :
        (key : ℕ)
        → holder llvm machine laws jit (filter_name kernel.field) ≡ some key
        → holder llvm machine laws jit (filter_remaining_name kernel.field) ≡ some key
        → Installed llvm machine laws kernel code jit key key (compile arrow floats llvm jit kernel)
    compile_shadowed key filter remaining =
        compile-owner _ _ (ap held_by filter) (ap held_by remaining)

    -- On a valid JIT, and for a condition whose code is emitted and verified: a kernel that is compiled and
    -- destroyed leaves a valid JIT with the modules that were there before, and with one resolver more.
    pub destroy-compile :
        (after : Jit Layers Machine Layout) × ((compile arrow floats llvm jit kernel >>= λ p.
        destroy llvm (p.1) (p.0))
          ≡ ok after)
        × IsJit llvm machine laws after
        × (laws.linked after.layers ≡ laws.linked jit.layers)
        × (length after.resolvers ≡ length jit.resolvers + 1)
    unfolding destroy
    destroy-compile =
        let i =
          compile-Installed llvm machine laws arrow floats jit kernel code valid emitted verified in
        let key = llvm.module_key jit.session in
        let l : Linked Mod = record { key = key; contents = i.contents } in
        let removed =
          remove_module-Removed llvm machine laws i.after key i.valid
            (rw (i.linked_after) (HasKey-append (laws.linked jit.layers) l)) in
        (
          removed.after,
          rw (i.returns) (removed.returns),
          removed.valid,
          removed.linked_after
              ∙ ap (erase key) (i.linked_after)
              ∙ erase_last (laws.linked jit.layers) l valid.keys_given,
          ap length (removed.same_resolvers)
              ∙ i.valid.resolvers_counted
              ∙ i.next_session
              ∙ ap (◌+ 1) (sym valid.resolvers_counted),
        )

module _ (kernel : FilterKernel) where
  code_outcomes :
      (m : Outcome (Option Value)) (n : Outcome Ty)
      → (m >>= λ returned. n >>= λ element. deref returned Fault.llvm_error >>= λ predicate.
          ok (record kernel { code = some (record { predicate = predicate; element = element }) }))
        ≡ (m
            >>= (λ returned. n >>= λ element. deref returned Fault.llvm_error >>= λ predicate.
                ok (record { predicate = predicate; element = element }))
            >>= λ (code : Compiled). ok (record kernel { code = some code }))
  code_outcomes (ok none) (ok element) = refl
  code_outcomes (ok (some predicate)) (ok element) = refl
  code_outcomes (ok returned) (throw e) = refl
  code_outcomes (ok returned) (fault e) = refl
  code_outcomes (throw e) n = refl
  code_outcomes (fault e) n = refl

  -- A kernel on its own is compiled to the code that its module on a JIT is built from.
  pub compile-emit_code :
      (arrow : Arrow) (floats : Floats)
      → Object.compile arrow floats kernel ≡ (
          emit_code arrow floats kernel.field kernel.expr >>= λ code.
          ok (record kernel { code = some code }))
  unfolding Object.compile emit_code
  compile-emit_code arrow floats =
      code_outcomes (gen_predicate_func arrow floats kernel.field kernel.expr)
        (from_arrow arrow kernel.field.type)

-- A kernel that compiles on its own, on a valid JIT none of whose modules defines its two functions, and
-- whose module is verified, compiles to the same code on the JIT, and with the two functions of its own
-- module.
pub compile-Object :
    {Mod Layers Machine Layout : Type 0} (arrow : Arrow) (floats : Floats)
    (llvm : Llvm Mod Layers Machine Layout) (machine : Machine) (laws : LlvmLaws llvm machine)
    (jit : Jit Layers Machine Layout) (kernel : KernelImpl) (code : Compiled)
    → IsJit llvm machine laws jit
    → Object.compile arrow floats (Object.create_cpu kernel.field kernel.expr)
      ≡ ok (record { field = kernel.field; expr = kernel.expr; code = some code })
    → laws.is_verified (kernel_module llvm machine kernel.field code) ≡ true
    → holder llvm machine laws jit (filter_name kernel.field) ≡ none
    → holder llvm machine laws jit (filter_remaining_name kernel.field) ≡ none
    → Installed llvm machine laws kernel code jit
        (llvm.module_key jit.session)
        (llvm.module_key jit.session)
        (compile arrow floats llvm jit kernel)
unfolding Object.create_cpu
compile-Object arrow floats llvm machine laws jit kernel code valid runs verified no_filter
      no_remaining =
    let (c, same, emitted) =
      returned_step (emit_code arrow floats kernel.field kernel.expr) (
        sym (compile-emit_code (Object.create_cpu kernel.field kernel.expr) arrow floats) ∙ runs) in
    let found : some c ≡ some code = ap (λ (k : FilterKernel). k.code) (ok_inj same) in
    let e : c ≡ code = cc in
    compile-Own arrow floats llvm machine laws jit kernel code valid (emitted ∙ ap ok e) verified
      no_filter no_remaining
