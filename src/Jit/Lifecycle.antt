-- ===== src/Jit/Lifecycle.antt =====
-- Kernels that are compiled, compiled again and destroyed in any order on one JIT.
use mathlib.Core.Path.{subst}
use pefa.Base.{
  ℕ, ◌≡◌, ◌∙◌, refl, sym, true, ◌==◌, ==_iff, Bool-cases, inl, inr, List, [], ◌∷◌, ◌++◌, some,
  Outcome, ok, returned_step, ok_inj,
}
use pefa.Arrow.{Arrow, Field}
use pefa.Expressions.{Expr}
use pefa.Kernel.Ir.{Floats}
use pefa.Kernel.Object.{Compiled}
use pefa.Jit.Interface.{Llvm, filter_body, filter_remaining_body}
use pefa.Jit.{Jit, new_jit, create_engine_builder}
use pefa.Jit.Kernels.{
  KernelImpl, new_kernel, filter_name, filter_remaining_name, emit_code, compile, destroy,
}
use pefa.Jit.Laws.{Linked, HasKey, erase, LlvmLaws}
use pefa.Jit.Verified.{AllVerified, emitted_verified}
use pefa.Jit.Keys.{Distinct, Distinct-last, Distinct-erase}
use pefa.Jit.Table.{IsJit, new_jit-IsJit, remove_module-Removed}
use pefa.Jit.Compiled.{installed, Installed, compile-Installed}

-- Whose a module is: that of a kernel that is alive, or of one that has been compiled again since, which
-- nothing has the key of.
pub data Slot : Type 0 where
  alive : KernelImpl → Slot
  orphan : Slot

-- The JIT, and whose its modules are, the oldest first.
pub record World (Layers Machine Layout : Type 0) : Type 0 where
  pub jit : Jit Layers Machine Layout
  pub live : List Slot

module _ {Mod Layers Machine Layout : Type 0} (arrow : Arrow) (floats : Floats)
    (llvm : Llvm Mod Layers Machine Layout) where
  -- A kernel is created and compiled, or any of those that are alive is compiled again, or destroyed.
  -- A second compilation writes over the key of the first.
  pub data Step : World Layers Machine Layout → World Layers Machine Layout → Type 0 where
    compiles :
        {jit after : Jit Layers Machine Layout} {result : KernelImpl} {live : List Slot}
        (field : Field) (expr : Expr)
        → compile arrow floats llvm jit (new_kernel field expr) ≡ ok (result, after)
        → Step
            (record { jit = jit; live = live })
            (record { jit = after; live = live ++ alive result ∷ [] })
    recompiles :
        {jit after : Jit Layers Machine Layout} {result : KernelImpl} (before behind : List Slot)
        (kernel : KernelImpl)
        → compile arrow floats llvm jit kernel ≡ ok (result, after)
        → Step
            (record { jit = jit; live = before ++ alive kernel ∷ behind })
            (record { jit = after; live = (before ++ orphan ∷ behind) ++ alive result ∷ [] })
    dies :
        {jit after : Jit Layers Machine Layout} (before behind : List Slot) (kernel : KernelImpl)
        → destroy llvm jit kernel ≡ ok after
        → Step
            (record { jit = jit; live = before ++ alive kernel ∷ behind })
            (record { jit = after; live = before ++ behind })

  -- What can come of a new JIT without kernels.
  pub data Reaches : World Layers Machine Layout → Type 0 where
    starts : Reaches (record { jit = new_jit llvm; live = [] })
    steps : {w after : World Layers Machine Layout} → Reaches w → Step w after → Reaches after

module _ {Mod Layers Machine Layout : Type 0} (arrow : Arrow) (floats : Floats)
    (llvm : Llvm Mod Layers Machine Layout) (machine : Machine) (laws : LlvmLaws llvm machine) where
  -- A kernel that is alive has its own module, with its code.
  pub record Owns (kernel : KernelImpl) (l : Linked Mod) : Type 0 where
    pub same_key : kernel.module_key ≡ l.key
    pub compiled : kernel.is_compiled ≡ true
    pub code : Compiled
    pub emitted : emit_code arrow floats kernel.field kernel.expr ≡ ok code
    pub filter_defined :
        laws.defines l.contents (filter_name kernel.field) ≡ some (filter_body code)
    pub remaining_defined :
        laws.defines l.contents (filter_remaining_name kernel.field)
        ≡ some (filter_remaining_body code)

  abbrev pub Agree : List Slot → List (Linked Mod) → Type 0
  Agree [] [] = Unit {0}
  Agree [] (l ∷ ls) = ⊥
  Agree (k ∷ ks) [] = ⊥
  Agree (alive k ∷ ks) (l ∷ ls) = Owns k l × Agree ks ls
  Agree (orphan ∷ ks) (l ∷ ls) = Agree ks ls

  Agree-last :
      (ks : List Slot) (ls : List (Linked Mod)) (k : KernelImpl) (l : Linked Mod)
      → Agree ks ls
      → Owns k l
      → Agree (ks ++ alive k ∷ []) (ls ++ l ∷ [])
  Agree-last [] [] k l h owns = (owns, tt)
  Agree-last [] (x ∷ ls) k l h owns = absurd h
  Agree-last (x ∷ ks) [] k l h owns = absurd h
  Agree-last (alive x ∷ ks) (y ∷ ls) k l h owns = (h.0, Agree-last ks ls k l h.1 owns)
  Agree-last (orphan ∷ ks) (y ∷ ls) k l h owns = Agree-last ks ls k l h owns

  -- The module stays where its kernel has another.
  Agree-orphan :
      (before behind : List Slot) (k : KernelImpl) (ls : List (Linked Mod))
      → Agree (before ++ alive k ∷ behind) ls
      → Agree (before ++ orphan ∷ behind) ls
  Agree-orphan [] behind k [] h = absurd h
  Agree-orphan [] behind k (l ∷ ls) h = h.1
  Agree-orphan (b ∷ before) behind k [] h = absurd h
  Agree-orphan (alive b ∷ before) behind k (l ∷ ls) h = (h.0, Agree-orphan before behind k ls h.1)
  Agree-orphan (orphan ∷ before) behind k (l ∷ ls) h = Agree-orphan before behind k ls h

  -- A kernel that is alive, in the middle of the others.
  Agree-middle :
      (before behind : List Slot) (k : KernelImpl) (ls : List (Linked Mod))
      → Agree (before ++ alive k ∷ behind) ls
      → Distinct ls
      → (k.is_compiled ≡ true)
        × HasKey k.module_key ls
        × Agree (before ++ behind) (erase k.module_key ls)
  Agree-middle [] behind k [] h distinct = absurd h
  Agree-middle [] behind k (l ∷ ls) h distinct =
      let e = h.0.same_key in (h.0.compiled, inl e, rw ((==_iff k.module_key l.key).1 e) (h.1))
  Agree-middle (b ∷ before) behind k [] h distinct = absurd h
  Agree-middle (alive b ∷ before) behind k (l ∷ ls) h distinct =
      let (compiled, has, rest) = Agree-middle before behind k ls h.1 distinct.1 in
      elim (Bool-cases (k.module_key == l.key)) [
        | inl e ↦
            absurd
              (distinct.0 (subst (λ (n : ℕ). HasKey n ls) ((==_iff k.module_key l.key).0 e) has))
        | inr e ↦ (compiled, inr has, rw e (h.0, rest))
      ]
  Agree-middle (orphan ∷ before) behind k (l ∷ ls) h distinct =
      let (compiled, has, rest) = Agree-middle before behind k ls h distinct.1 in
      elim (Bool-cases (k.module_key == l.key)) [
        | inl e ↦
            absurd
              (distinct.0 (subst (λ (n : ℕ). HasKey n ls) ((==_iff k.module_key l.key).0 e) has))
        | inr e ↦ (compiled, inr has, rw e rest)
      ]

  -- What holds of every state that can come about.
  pub record IsWorld (w : World Layers Machine Layout) : Type 0 where
    pub valid : IsJit llvm machine laws w.jit
    pub agree : Agree w.live (laws.linked w.jit.layers)
    pub distinct : Distinct (laws.linked w.jit.layers)

  -- The destructor of any kernel that is alive finds its module.
  pub destroy-IsWorld :
      (jit : Jit Layers Machine Layout) (before behind : List Slot) (k : KernelImpl)
      → IsWorld (record { jit = jit; live = before ++ alive k ∷ behind })
      → (after : Jit Layers Machine Layout) × (destroy llvm jit k ≡ ok after)
        × IsWorld (record { jit = after; live = before ++ behind })
  unfolding destroy
  destroy-IsWorld jit before behind k world =
      let (compiled, has, rest) =
        Agree-middle before behind k (laws.linked jit.layers) world.agree world.distinct in
      let removed = remove_module-Removed llvm machine laws jit k.module_key world.valid has in
      (
        removed.after,
        rw compiled (removed.returns),
        record {
          valid = removed.valid;
          agree = rw (removed.linked_after) rest;
          distinct =
              rw (removed.linked_after)
                (Distinct-erase k.module_key (laws.linked jit.layers) world.distinct);
        },
      )

  Installed-IsWorld :
      (jit : Jit Layers Machine Layout) (kernel : KernelImpl) (live : List Slot) (code : Compiled)
      (filter remaining : ℕ) {result : Outcome (KernelImpl × Jit Layers Machine Layout)}
      → emit_code arrow floats kernel.field kernel.expr ≡ ok code
      → IsWorld (record { jit = jit; live = live })
      → (i : Installed llvm machine laws kernel code jit filter remaining result)
      → IsWorld (record {
        jit = i.after;
        live =
            live
            ++ alive
                (installed llvm machine laws kernel (llvm.module_key jit.session) filter remaining)
              ∷ [];
      })
  Installed-IsWorld jit kernel live code filter remaining emitted world i =
      let l : Linked Mod = record { key = llvm.module_key jit.session; contents = i.contents } in
      record {
        valid = i.valid;
        agree = rw (i.linked_after) (
            Agree-last live (laws.linked jit.layers) _ l world.agree (record {
              same_key = refl;
              compiled = refl;
              code = code;
              emitted = emitted;
              filter_defined = i.filter_defined;
              remaining_defined = i.remaining_defined;
            }));
        distinct =
            rw (i.linked_after)
              (Distinct-last (laws.linked jit.layers) l world.valid.keys_given world.distinct);
      }

  -- A kernel that has been compiled had its code emitted.
  compile-emit_code :
      (jit : Jit Layers Machine Layout) (kernel : KernelImpl)
      {p : KernelImpl × Jit Layers Machine Layout}
      → compile arrow floats llvm jit kernel ≡ ok p
      → (code : Compiled) × (emit_code arrow floats kernel.field kernel.expr ≡ ok code)
  unfolding compile
  compile-emit_code jit kernel runs =
      let (code, rest, emitted) =
        returned_step (emit_code arrow floats kernel.field kernel.expr) runs in
      (code, emitted)

  compile-IsWorld :
      AllVerified llvm machine laws
      → (jit : Jit Layers Machine Layout) (kernel : KernelImpl) (live : List Slot)
        {p : KernelImpl × Jit Layers Machine Layout}
      → compile arrow floats llvm jit kernel ≡ ok p
      → IsWorld (record { jit = jit; live = live })
      → IsWorld (record { jit = p.1; live = live ++ alive (p.0) ∷ [] })
  compile-IsWorld verified jit kernel live runs world =
      let (code, emitted) = compile-emit_code jit kernel runs in
      let i = compile-Installed llvm machine laws arrow floats jit kernel code world.valid emitted (
        emitted_verified arrow floats llvm machine laws verified kernel.field kernel.expr code
          emitted) in
      subst
        (λ (p : KernelImpl × Jit Layers Machine Layout).
          IsWorld (record { jit = p.1; live = live ++ alive (p.0) ∷ [] }))
        (ok_inj (sym (i.returns) ∙ runs))
        (Installed-IsWorld jit kernel live code _ _ emitted world i)

  Step-IsWorld :
      {w after : World Layers Machine Layout}
      → AllVerified llvm machine laws
      → Step arrow floats llvm w after
      → IsWorld w
      → IsWorld after
  Step-IsWorld verified (compiles {jit = jit} {live = live} field expr runs) world =
      compile-IsWorld verified jit (new_kernel field expr) live runs world
  Step-IsWorld verified (recompiles {jit = jit} before behind kernel runs) world =
      compile-IsWorld verified jit kernel (before ++ orphan ∷ behind) runs (record {
        valid = world.valid;
        agree = Agree-orphan before behind kernel (laws.linked jit.layers) world.agree;
        distinct = world.distinct;
      })
  Step-IsWorld verified (dies {jit = jit} before behind kernel runs) world =
      let (removed, returns, next) = destroy-IsWorld jit before behind kernel world in
      subst
        (λ (j : Jit Layers Machine Layout). IsWorld (record { jit = j; live = before ++ behind }))
        (ok_inj (sym returns ∙ runs)) next

  -- If LLVM verifies the modules of kernels whose predicates are well typed: in every state
  -- that can come about by creating and compiling kernels, compiling them again, and destroying
  -- them, in any order, the JIT is valid, and no two modules have one key. In the order of
  -- their compilations, its modules are, for each kernel that is alive, the one of its last
  -- compilation, under its kernel's key and with its kernel's functions, and, for each time
  -- that a kernel was compiled again, the one from before, an orphan.
  pub Reaches-IsWorld :
      machine ≡ llvm.select_target (create_engine_builder llvm)
      → AllVerified llvm machine laws
      → (w : World Layers Machine Layout) → Reaches arrow floats llvm w
      → IsWorld w
  Reaches-IsWorld same verified w starts = record {
    valid = new_jit-IsJit llvm machine laws same;
    agree = unfold new_jit in rw (laws.nothing_linked) tt;
    distinct = unfold new_jit in rw (laws.nothing_linked) tt;
  }
  Reaches-IsWorld same verified w (steps {w = before} reached step) =
      Step-IsWorld verified step (Reaches-IsWorld same verified before reached)
