-- ===== src/Reloc/ObjectLoops.antt =====
-- What the loops of `save_obj` in reloc/obj.cpp keep, from what their bodies keep.
use smolforth.Base.{ℕ, Option, none, some, List, [], ◌∷◌}
use smolforth.Reloc.Tables.{Name, Symbol, Target}
use smolforth.Reloc.Names
use smolforth.Reloc.Names.{Link}
use smolforth.Reloc.Object
use smolforth.Reloc.Object.{ElfSymbols, Index, Symbols}
use smolforth.Reloc.Keeps.{AllOf, bind-AllOf, bind_after-AllOf, if-AllOf}

-- A property that the bodies of a loop keep is kept by the loop.
for_each-AllOf :
    {A : Type 0} (P : Symbols → Type 0) (f : A → Symbols → Option Symbols)
    → ((x : A) (b : Symbols) → P b → AllOf P (f x b))
    → (xs : List A) (b : Symbols) → P b
    → AllOf P (Object.for_each f xs b)
unfolding Object.for_each
for_each-AllOf P f h [] b p = p
for_each-AllOf P f h (x ∷ xs) b p =
    bind_after-AllOf P P (f x b) _ (h x b p) (for_each-AllOf P f h xs)

module _ (target : Target) (elf : ElfSymbols) (link : Link) (P : Symbols → Type 0) where
  -- What holds after a symbol of this binding is pushed, wherever it is.
  abbrev Pushes : ℕ → Index → Symbols → Type 0
  Pushes bind index b =
      (shndx value : ℕ)
      → P (Object.push_symbol elf index (elf.st_info bind elf.stt_func) shndx value b)

  push_at-AllOf :
      (index : Index) (bind addr s : ℕ) (b : Symbols)
      → Pushes bind index b
      → AllOf P (Object.push_at target elf link.sections index bind addr s b)
  unfolding Object.push_at
  push_at-AllOf index bind addr s b h =
      bind-AllOf P (Object.start_of link.sections s) _ (λ start. h _ _)

  push_defined-AllOf :
      (index : Index) (bind addr : ℕ) (b : Symbols)
      → Pushes bind index b
      → AllOf P (Object.push_defined target elf link.sections index bind addr b)
  unfolding Object.push_defined
  push_defined-AllOf index bind addr b h =
      bind-AllOf P (Names.in_any_section link.sections addr) _
        (λ s. push_at-AllOf index bind addr s b h)

  -- The same for a symbol without an address.
  abbrev PushesUndefined : Index → Symbols → Type 0
  PushesUndefined index b =
      P (Object.push_symbol elf index (elf.st_info elf.stb_global elf.stt_notype) 0 0 b)

  label-AllOf :
      (o : Option ℕ) (index : Index) (bind addr : ℕ) (b : Symbols)
      → P b
      → Pushes bind index (Object.count_local b)
      → AllOf P (elim o [
        | none ↦ some b
        | some s ↦ Object.push_at target elf link.sections index bind addr s (Object.count_local b)
      ])
  label-AllOf none index bind addr b p h = p
  label-AllOf (some s) index bind addr b p h =
      push_at-AllOf index bind addr s (Object.count_local b) h

  -- What the three loops that count their symbols need.
  abbrev KeptByLocals : Type 0
  KeptByLocals =
      (bind : ℕ) (index : Index) (b : Symbols) → P b → Pushes bind index (Object.count_local b)

  push_label-AllOf :
      KeptByLocals
      → (e : Name × ℕ) (b : Symbols) → P b
      → AllOf P (Object.push_label target elf link e b)
  unfolding Object.push_label
  push_label-AllOf h e b p = label-AllOf _ _ _ _ b p (h _ _ b p)

  push_local-AllOf :
      KeptByLocals
      → (e : Name × Symbol) (b : Symbols) → P b
      → AllOf P (Object.push_local target elf link e b)
  unfolding Object.push_local
  push_local-AllOf h e b p = if-AllOf P _ _ (some b) (push_defined-AllOf _ _ _ _ (h _ _ b p)) p

  push_hidden-AllOf :
      KeptByLocals
      → (e : Name × Symbol) (b : Symbols) → P b
      → AllOf P (Object.push_hidden target elf link e b)
  unfolding Object.push_hidden
  push_hidden-AllOf h e b p = if-AllOf P _ _ (some b) (push_defined-AllOf _ _ _ _ (h _ _ b p)) p

  push_global-AllOf :
      ((index : Index) (b : Symbols) → P b → Pushes elf.stb_global index b)
      → (e : Name × Symbol) (b : Symbols) → P b
      → AllOf P (Object.push_global target elf link e b)
  unfolding Object.push_global
  push_global-AllOf h e b p = if-AllOf P _ _ (some b) (push_defined-AllOf _ _ _ _ (h _ b p)) p

  push_undefined-AllOf :
      ((index : Index) (b : Symbols) → P b → PushesUndefined index b)
      → (e : (Name × ℕ) × Unit {0}) (b : Symbols) → P b
      → AllOf P (Object.push_undefined target elf link e b)
  unfolding Object.push_undefined
  push_undefined-AllOf h e b p = h _ b p

  pub local_loops-AllOf :
      (b : Symbols) → KeptByLocals → P b → AllOf P (Object.local_loops target elf link b)
  unfolding Object.local_loops
  local_loops-AllOf b h p =
      bind_after-AllOf P P
        (Object.for_each (Object.push_label target elf link) link.local_symbols b) _
        (for_each-AllOf P (Object.push_label target elf link) (push_label-AllOf h)
          link.local_symbols b p)
        (λ b1 p1.
          bind_after-AllOf P P
            (Object.for_each (Object.push_local target elf link) link.dup_symbols b1) _
            (for_each-AllOf P (Object.push_local target elf link) (push_local-AllOf h)
              link.dup_symbols b1 p1)
            (for_each-AllOf P (Object.push_hidden target elf link) (push_hidden-AllOf h)
              link.dup_symbols))

  pub global_loops-AllOf :
      (b : Symbols)
      → ((index : Index) (b : Symbols) → P b → Pushes elf.stb_global index b)
      → ((index : Index) (b : Symbols) → P b → PushesUndefined index b)
      → P b
      → AllOf P (Object.global_loops target elf link b)
  unfolding Object.global_loops
  global_loops-AllOf b h u p =
      bind_after-AllOf P P (Object.for_each (Object.push_global target elf link) link.globals b) _
        (for_each-AllOf P (Object.push_global target elf link) (push_global-AllOf h) link.globals b
          p)
        (for_each-AllOf P (Object.push_undefined target elf link) (push_undefined-AllOf u)
          link.undefined)
