-- ===== src/Jit/Drain.antt =====
-- The end of kernels: their destructors.
use mathlib.Core.Path.{subst}
use pefa.Base.{
  ℕ, zero, suc, ◌+◌, ◌≡◌, refl, ap, sym, arith, List, [], ◌∷◌, ◌++◌, length, Outcome, ok, ◌>>=◌,
}
use pefa.Arrow.{Arrow}
use pefa.Kernel.Ir.{Floats}
use pefa.Jit.Interface.{Llvm}
use pefa.Jit.{Jit, create_engine_builder}
use pefa.Jit.Kernels.{KernelImpl, destroy}
use pefa.Jit.Laws.{Linked, LlvmLaws}
use pefa.Jit.Verified.{AllVerified}
use pefa.Jit.Lifecycle.{
  Slot, alive, orphan, Reaches, Agree, IsWorld, destroy-IsWorld, Reaches-IsWorld,
}

module _ {Mod Layers Machine Layout : Type 0} (arrow : Arrow) (floats : Floats)
    (llvm : Llvm Mod Layers Machine Layout) (machine : Machine) (laws : LlvmLaws llvm machine) where
  -- If LLVM verifies the modules of kernels whose predicates are well typed: in every state
  -- that can come about by creating and compiling kernels, compiling them again, and destroying
  -- them, in any order, the destructor of every kernel that is alive returns, and leaves the
  -- modules of the others, and the orphans, the modules that kernels had before they were
  -- compiled again.
  pub destroy-Reaches :
      machine ≡ llvm.select_target (create_engine_builder llvm)
      → AllVerified llvm machine laws
      → (jit : Jit Layers Machine Layout) (before behind : List Slot) (k : KernelImpl)
      → Reaches arrow floats llvm (record { jit = jit; live = before ++ alive k ∷ behind })
      → (after : Jit Layers Machine Layout) × (destroy llvm jit k ≡ ok after)
        × Agree arrow floats llvm machine laws (before ++ behind) (laws.linked after.layers)
  destroy-Reaches same verified jit before behind k reached =
      let (after, returns, world) =
        destroy-IsWorld arrow floats llvm machine laws jit before behind k
          (Reaches-IsWorld arrow floats llvm machine laws same verified _ reached) in
      (after, returns, world.agree)

  -- The destructors of the kernels that are alive, one after another.
  abbrev pub destroy_all :
      Jit Layers Machine Layout → List Slot → Outcome (Jit Layers Machine Layout)
  destroy_all jit [] = ok jit
  destroy_all jit (alive k ∷ ks) = do after ← destroy llvm jit k; destroy_all after ks
  destroy_all jit (orphan ∷ ks) = destroy_all jit ks

  -- How many modules are orphans.
  abbrev pub orphans : List Slot → ℕ
  orphans [] = 0
  orphans (alive k ∷ ks) = orphans ks
  orphans (orphan ∷ ks) = suc (orphans ks)

  abbrev none_alive : ℕ → List Slot → List Slot
  none_alive zero ks = ks
  none_alive (suc n) ks = orphan ∷ none_alive n ks

  none_alive-append : (n : ℕ) (ks : List Slot) → none_alive n [] ++ ks ≡ none_alive n ks
  none_alive-append zero ks = refl
  none_alive-append (suc n) ks = ap (λ (t : List Slot). orphan ∷ t) (none_alive-append n ks)

  none_alive-orphan : (n : ℕ) (ks : List Slot) → none_alive n (orphan ∷ ks) ≡ none_alive (suc n) ks
  none_alive-orphan zero ks = refl
  none_alive-orphan (suc n) ks = ap (λ (t : List Slot). orphan ∷ t) (none_alive-orphan n ks)

  Agree-none_alive :
      (n : ℕ) (ls : List (Linked Mod))
      → Agree arrow floats llvm machine laws (none_alive n []) ls
      → length ls ≡ n
  Agree-none_alive zero [] h = refl
  Agree-none_alive zero (l ∷ ls) h = absurd h
  Agree-none_alive (suc n) [] h = absurd h
  Agree-none_alive (suc n) (l ∷ ls) h = ap suc (Agree-none_alive n ls h)

  abbrev IsWorldOf : Jit Layers Machine Layout → List Slot → Type 0
  IsWorldOf jit live = IsWorld arrow floats llvm machine laws (record { jit = jit; live = live })

  destroy_all-IsWorld :
      (n : ℕ) (jit : Jit Layers Machine Layout) (live : List Slot)
      → IsWorldOf jit (none_alive n live)
      → (after : Jit Layers Machine Layout) × (destroy_all jit live ≡ ok after)
        × (length (laws.linked after.layers) ≡ n + orphans live)
  destroy_all-IsWorld n jit [] world =
      (jit, refl, omega (arith, Agree-none_alive n (laws.linked jit.layers) world.agree))
  destroy_all-IsWorld n jit (orphan ∷ ks) world =
      let (after, runs, left) =
        destroy_all-IsWorld (suc n) jit ks (subst (IsWorldOf jit) (none_alive-orphan n ks) world) in
      (after, runs, omega arith)
  destroy_all-IsWorld n jit (alive k ∷ ks) world =
      let (next, returns, world_after) =
        destroy-IsWorld arrow floats llvm machine laws jit (none_alive n []) ks k
          (subst (IsWorldOf jit) (sym (none_alive-append n (alive k ∷ ks))) world) in
      let (after, runs, left) =
        destroy_all-IsWorld n next ks
          (subst (IsWorldOf next) (none_alive-append n ks) world_after) in
      (after, rw returns runs, left)

  -- If LLVM verifies the modules of kernels whose predicates are well typed: from every state
  -- that can come about by creating and compiling kernels, compiling them again, and destroying
  -- them, in any order, the destructors of the kernels that are alive, one after another, all
  -- return, and leave as many modules as there are orphans, the modules that kernels had before
  -- they were compiled again: none, if no kernel was.
  pub destroy_all-Reaches :
      machine ≡ llvm.select_target (create_engine_builder llvm)
      → AllVerified llvm machine laws
      → (jit : Jit Layers Machine Layout) (live : List Slot)
      → Reaches arrow floats llvm (record { jit = jit; live = live })
      → (after : Jit Layers Machine Layout) × (destroy_all jit live ≡ ok after)
        × (length (laws.linked after.layers) ≡ orphans live)
  destroy_all-Reaches same verified jit live reached =
      let (after, runs, left) =
        destroy_all-IsWorld 0 jit live
          (Reaches-IsWorld arrow floats llvm machine laws same verified _ reached) in
      (after, runs, omega (arith, left))
