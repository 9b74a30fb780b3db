-- ===== src/Jit/Table.antt =====
-- The table of modules behind `addModule` and `removeModule`.
use pefa.Base.{
  ℕ, ◌+◌, ◌<◌, ◌≤◌, ◌≡◌, inl, inr, ◌∙◌, refl, sym, ap, arith, true, false, ◌==◌, Bool-cases, List,
  [], ◌∷◌, ◌++◌, length, AllBelow, AllBelow-le, ok,
}
use pefa.Jit.Interface.{Llvm}
use pefa.Jit.{Jit, insert_key, create_engine_builder, new_jit, add_module, remove_module}
use pefa.Jit.Laws.{Linked, KeysBelow, HasKey, erase, LlvmLaws}
use pefa.Jit.Optimized.{Kept, optimize_module-Kept}

==_self : (a : ℕ) → (a == a) ≡ true
==_self a = ground arith

==_ne : (a b : ℕ) → b < a → (a == b) ≡ false
==_ne a b h = ground arith

-- A key above all others is inserted behind them.
AllBelow-insert_key :
    (n key : ℕ) (ks : List ℕ) → AllBelow n ks → key < n → AllBelow n (insert_key key ks)
unfolding insert_key
AllBelow-insert_key n key [] h below = (below, tt)
AllBelow-insert_key n key (k ∷ ks) h below = elim (Bool-cases (key == k)) [
  | inl e ↦ rw e h
  | inr e ↦ rw e (h.0, AllBelow-insert_key n key ks h.1 below)
]

length-insert_key :
    (key : ℕ) (ks : List ℕ) → AllBelow key ks → length (insert_key key ks) ≡ length ks + 1
unfolding insert_key
length-insert_key key [] h = refl
length-insert_key key (k ∷ ks) h =
    rw (==_ne key k (h.0)) (omega (arith, length-insert_key key ks h.1))

module _ {Mod : Type 0} where
  pub KeysBelow-le : (n k : ℕ) (ls : List (Linked Mod)) → n ≤ k → KeysBelow n ls → KeysBelow k ls
  KeysBelow-le n k [] le h = tt
  KeysBelow-le n k (l ∷ ls) le h = (omega (arith, h.0), KeysBelow-le n k ls le h.1)

  pub KeysBelow-append :
      (n : ℕ) (ls : List (Linked Mod)) (l : Linked Mod)
      → KeysBelow n ls
      → l.key < n
      → KeysBelow n (ls ++ l ∷ [])
  KeysBelow-append n [] l h below = (below, tt)
  KeysBelow-append n (x ∷ ls) l h below = (h.0, KeysBelow-append n ls l h.1 below)

  pub KeysBelow-erase :
      (n key : ℕ) (ls : List (Linked Mod)) → KeysBelow n ls → KeysBelow n (erase key ls)
  KeysBelow-erase n key [] h = tt
  KeysBelow-erase n key (l ∷ ls) h = elim (Bool-cases (key == l.key)) [
    | inl e ↦ rw e (h.1)
    | inr e ↦ rw e (h.0, KeysBelow-erase n key ls h.1)
  ]

  pub HasKey-append : (ls : List (Linked Mod)) (l : Linked Mod) → HasKey l.key (ls ++ l ∷ [])
  HasKey-append [] l = inl refl
  HasKey-append (x ∷ ls) l = inr (HasKey-append ls l)

  pub erase_last :
      (ls : List (Linked Mod)) (l : Linked Mod)
      → KeysBelow l.key ls
      → erase l.key (ls ++ l ∷ []) ≡ ls
  erase_last [] l h = rw (==_self l.key) refl
  erase_last (x ∷ ls) l h =
      rw (==_ne l.key x.key (omega (arith, h.0))) (ap (◌∷◌ x) (erase_last ls l h.1))

module _ {Mod Layers Machine Layout : Type 0} (llvm : Llvm Mod Layers Machine Layout)
    (machine : Machine) (laws : LlvmLaws llvm machine) where
  -- A JIT for the machine, whose modules have keys that the session has given out, and which has a
  -- resolver for each of these.
  pub record IsJit (jit : Jit Layers Machine Layout) : Type 0 where
    pub same_machine : jit.target_machine ≡ machine
    pub same_layout : jit.data_layout ≡ llvm.create_data_layout machine
    pub keys_given : KeysBelow (llvm.module_key jit.session) (laws.linked jit.layers)
    pub resolvers_given : AllBelow (llvm.module_key jit.session) jit.resolvers
    pub resolvers_counted : length jit.resolvers ≡ jit.session

  -- The module has been added, under the next key, behind those that were there.
  pub record Added (jit : Jit Layers Machine Layout) (m : Mod) : Type 0 where
    pub optimized : Mod
    pub kept : Kept llvm machine laws m optimized
    pub after : Jit Layers Machine Layout
    pub returns : add_module llvm jit m ≡ ok (llvm.module_key jit.session, after)
    pub valid : IsJit after
    pub next_session : after.session ≡ jit.session + 1
    pub linked_after :
        laws.linked after.layers
        ≡ laws.linked jit.layers
          ++ record { key = llvm.module_key jit.session; contents = optimized } ∷ []

  pub add_module-Added :
      (jit : Jit Layers Machine Layout) (m : Mod)
      → IsJit jit
      → laws.is_verified m ≡ true
      → Added jit m
  unfolding add_module
  add_module-Added jit m valid verified =
      let key = llvm.module_key jit.session in
      let next = laws.keys_increase jit.session in
      let (optimized, runs, kept) = optimize_module-Kept llvm machine laws m verified in
      let (layers, added, linked_after) =
        laws.module_added jit.layers (llvm.module_key jit.session) optimized valid.keys_given in
      record {
        optimized = optimized;
        kept = kept;
        after = record jit {
          session = jit.session + 1;
          resolvers = insert_key key jit.resolvers;
          layers = layers;
        };
        returns = rw (valid.same_machine, runs, added) refl;
        valid = record {
          same_machine = valid.same_machine;
          same_layout = valid.same_layout;
          keys_given = rw linked_after (
              KeysBelow-append _ (laws.linked jit.layers)
                (record { key = key; contents = optimized })
                (KeysBelow-le key _ (laws.linked jit.layers) (omega (arith, next)) valid.keys_given)
                next);
          resolvers_given =
              AllBelow-insert_key _ key jit.resolvers
                (AllBelow-le key _ jit.resolvers (omega (arith, next)) valid.resolvers_given) next;
          resolvers_counted =
              length-insert_key key jit.resolvers valid.resolvers_given
              ∙ ap (◌+ 1) (valid.resolvers_counted);
        };
        next_session = refl;
        linked_after = linked_after;
      }

  -- A new JIT has no modules.
  pub new_jit-IsJit :
      machine ≡ llvm.select_target (create_engine_builder llvm) → IsJit (new_jit llvm)
  unfolding new_jit
  new_jit-IsJit same = record {
    same_machine = sym same;
    same_layout = ap llvm.create_data_layout (sym same);
    keys_given = rw (laws.nothing_linked) tt;
    resolvers_given = tt;
    resolvers_counted = refl;
  }

  -- The module of the key has been removed.
  pub record Removed (jit : Jit Layers Machine Layout) (key : ℕ) : Type 0 where
    pub after : Jit Layers Machine Layout
    pub returns : remove_module llvm jit key ≡ ok after
    pub valid : IsJit after
    pub same_session : after.session ≡ jit.session
    pub same_resolvers : after.resolvers ≡ jit.resolvers
    pub linked_after : laws.linked after.layers ≡ erase key (laws.linked jit.layers)

  pub remove_module-Removed :
      (jit : Jit Layers Machine Layout) (key : ℕ)
      → IsJit jit
      → HasKey key (laws.linked jit.layers)
      → Removed jit key
  unfolding remove_module
  remove_module-Removed jit key valid has =
      let (layers, removed, linked_after) = laws.module_removed jit.layers key has in
      record {
        after = record jit { layers = layers };
        returns = rw removed refl;
        valid = record {
          same_machine = valid.same_machine;
          same_layout = valid.same_layout;
          keys_given =
              rw linked_after (KeysBelow-erase _ key (laws.linked jit.layers) valid.keys_given);
          resolvers_given = valid.resolvers_given;
          resolvers_counted = valid.resolvers_counted;
        };
        same_session = refl;
        same_resolvers = refl;
        linked_after = linked_after;
      }
