-- ===== src/Jit/Verified.antt =====
-- The modules that LLVM's verifier is relied on to accept: their predicates are well typed.
use mathlib.Core.Path.{subst}
use pefa.Base.{◌≡◌, true, Option, none, some, Outcome, ok, Fault, deref, returned_step, ok_inj}
use pefa.Arrow.{Arrow, Field}
use pefa.Expressions.{Expr}
use pefa.Kernel.Ir.{Ty, Floats, from_arrow, Value}
use pefa.Kernel.Emit.{gen_predicate_func}
use pefa.Kernel.Object.{Compiled}
use pefa.Kernel.Typed.{HasType, truth, Yields}
use pefa.Kernel.Typed.Results.{Returns, gen_predicate_func-HasType}
use pefa.Jit.Interface.{Llvm}
use pefa.Jit.Kernels.{emit_code, kernel_module}
use pefa.Jit.Laws.{LlvmLaws}

-- Code whose predicate is, in a function of an element of the column, a value of type i1.
abbrev pub IsWellTyped : Compiled → Type 0
IsWellTyped code = HasType code.element code.predicate truth

-- A kernel's module with such code is accepted by the verifier.
abbrev pub AllVerified :
    {Mod Layers Machine Layout : Type 0} (llvm : Llvm Mod Layers Machine Layout) (machine : Machine)
    → LlvmLaws llvm machine
    → Type 0
AllVerified llvm machine laws =
    (field : Field) (code : Compiled)
    → IsWellTyped code
    → laws.is_verified (kernel_module llvm machine field code) ≡ true

returned-HasType :
    (t : Ty) (expr : Expr) (m : Outcome (Option Value)) (returned : Option Value)
    (predicate : Value)
    → m ≡ ok returned
    → deref returned Fault.llvm_error ≡ ok predicate
    → Yields (Returns t expr) m
    → HasType t predicate truth
returned-HasType t expr m none predicate generated value typed = cc
returned-HasType t expr m (some v) predicate generated value typed =
    subst (λ (x : Value). HasType t x truth) (ok_inj value)
      (subst (Yields (Returns t expr)) generated typed).1

-- All code that is emitted is well typed.
pub emit_code-IsWellTyped :
    (arrow : Arrow) (floats : Floats) (field : Field) (expr : Expr) (code : Compiled)
    → emit_code arrow floats field expr ≡ ok code
    → IsWellTyped code
unfolding emit_code
emit_code-IsWellTyped arrow floats field expr code emitted =
    let (returned, rest, generated) =
      returned_step (gen_predicate_func arrow floats field expr) emitted in
    let (element, last, known) = returned_step (from_arrow arrow field.type) rest in
    let (predicate, same, value) = returned_step (deref returned Fault.llvm_error) last in
    subst IsWellTyped (ok_inj same) (
      returned-HasType element expr (gen_predicate_func arrow floats field expr) returned predicate
        generated value (gen_predicate_func-HasType arrow floats field element known expr))

pub emitted_verified :
    {Mod Layers Machine Layout : Type 0} (arrow : Arrow) (floats : Floats)
    (llvm : Llvm Mod Layers Machine Layout) (machine : Machine) (laws : LlvmLaws llvm machine)
    → AllVerified llvm machine laws
    → (field : Field) (expr : Expr) (code : Compiled) → emit_code arrow floats field expr ≡ ok code
    → laws.is_verified (kernel_module llvm machine field code) ≡ true
emitted_verified arrow floats llvm machine laws verified field expr code emitted =
    verified field code (emit_code-IsWellTyped arrow floats field expr code emitted)
