-- ===== src/Reloc/Keeps.antt =====
-- The relocation words of reloc/obj.cpp change no relocation that is recorded.
pub mod Lines
use smolforth.Base.{
  ℕ, zero, suc, ◌≡◌, ◌⊎◌, inl, inr, refl, sym, ◌∙◌, Bool, true, false, if◌then◌else◌, Option, none,
  some, List, [], ◌∷◌, length, Bool-cases, ◌==◌, ==_iff, ◌≢◌, ap,
}
use smolforth.Reloc.Texts.{◌>>=◌, ◌>>◌, assert, number_key, text_key}
use smolforth.Reloc.Map.{at, emplace_multi}
use smolforth.Reloc.Tables
use smolforth.Reloc.Tables.{
  Name, Target, x86_64, rv64, rv32, ElfTypes, Relocation, Value, Tables, number, text,
  add_relocation,
}
use smolforth.Reloc.Recorded.{Recorded, add_relocation-Recorded}
use smolforth.Reloc.Records
use smolforth.Reloc.Records.{Cases}
use mathlib.Core.Path.{subst}

-- A property of the result, where there is one.
abbrev pub AllOf {ℓ κ} : {A : Type ℓ} → (A → Type κ) → Option A → Type κ
AllOf P none = Unit
AllOf P (some a) = P a

pub bind-AllOf {ℓ κ μ} :
    {A : Type ℓ} {B : Type κ} (P : B → Type μ) (m : Option A) (f : A → Option B)
    → ((a : A) → AllOf P (f a))
    → AllOf P (m >>= f)
bind-AllOf P none f h = tt
bind-AllOf P (some a) f h = h a

pub bind_after-AllOf {ℓ κ μ ν} :
    {A : Type ℓ} {B : Type κ} (Q : A → Type ν) (P : B → Type μ) (m : Option A) (f : A → Option B)
    → AllOf Q m
    → ((a : A) → Q a → AllOf P (f a))
    → AllOf P (m >>= f)
bind_after-AllOf Q P none f q h = tt
bind_after-AllOf Q P (some a) f q h = h a q

pub if-AllOf {ℓ κ} :
    {A : Type ℓ} (P : A → Type κ) (b : Bool) (x y : Option A)
    → AllOf P x
    → AllOf P y
    → AllOf P (if b then x else y)
if-AllOf P true x y p q = p
if-AllOf P false x y p q = q

-- Every relocation of the first tables is in the second.
abbrev pub Kept : Tables → Tables → Type 0
Kept t t' = (a : ℕ) (r : Relocation) → at a t.relocations ≡ some r → at a t'.relocations ≡ some r

pub Kept-refl : (t : Tables) → Kept t t
Kept-refl t a r e = e

weaken : (t u : Tables) (o : Option Tables) → Kept t u → AllOf (Kept u) o → AllOf (Kept t) o
weaken t u none k h = tt
weaken t u (some v) k h = λ a r e. h a r (k a r e)

Recorded-Kept :
    (from : ℕ) (new : Relocation) (t : Tables) (o : Option Tables)
    → Recorded from new t o
    → AllOf (Kept t) o
Recorded-Kept from new t none h = tt
Recorded-Kept from new t (some t') h = λ a r e. elim (Bool-cases (a == from)) [
  | inl here ↦ at_from ((==_iff a from).0 here) e
  | inr there ↦ h.2 a (λ x. differ (sym ((==_iff a from).1 x) ∙ there)) ∙ e
]
  where
    differ : true ≢ false
    differ e = cc

    at_from :
        {a : ℕ} {r : Relocation}
        → a ≡ from
        → at a t.relocations ≡ some r
        → at a t'.relocations ≡ some r
    at_from x e = elim (h.0) [
      | inl empty ↦ cc
      | inr old ↦ rw x (h.1 ∙ sym old ∙ ap (λ a. at a t.relocations) (sym x) ∙ e)
    ]

add_relocation-Kept :
    (name : Name) (word_addr addend from type l : ℕ) (t : Tables)
    → AllOf (Kept t) (add_relocation name word_addr addend from type l t)
add_relocation-Kept name word_addr addend from type l t =
    Recorded-Kept from _ t _ (add_relocation-Recorded name word_addr addend from type l t)

relocate-Kept :
    (p : Records.Place) (addend from type : ℕ) (t : Tables)
    → AllOf (Kept t) (Records.relocate p addend from type t)
unfolding Records.relocate
relocate-Kept p addend from type t =
    add_relocation-Kept p.name p.word_addr addend from type p.local_flag t

execute_cases-Kept :
    (target : Target) (elf : ElfTypes) (kind : ℕ) (p : Records.Place) (t : Tables)
    → AllOf (Kept t) (Records.execute_cases target elf kind p t)
unfolding Records.execute_cases
execute_cases-Kept x86_64 elf zero p t = relocate-Kept p _ _ _ t
execute_cases-Kept x86_64 elf (suc zero) p t = relocate-Kept p _ _ _ t
execute_cases-Kept x86_64 elf (suc (suc k)) p t = Kept-refl t
execute_cases-Kept rv64 elf zero p t = relocate-Kept p _ _ _ t
execute_cases-Kept rv64 elf (suc zero) p t = relocate-Kept p _ _ _ t
execute_cases-Kept rv64 elf (suc (suc k)) p t = Kept-refl t
execute_cases-Kept rv32 elf zero p t = relocate-Kept p _ _ _ t
execute_cases-Kept rv32 elf (suc zero) p t = relocate-Kept p _ _ _ t
execute_cases-Kept rv32 elf (suc (suc k)) p t = Kept-refl t

with_label-Kept :
    (target : Target) (elf : ElfTypes) (p : Records.Place) (addend type : ℕ) (t : Tables)
    → AllOf (Kept t) (Records.with_label target elf p addend type t)
unfolding Records.with_label Tables.lnext
with_label-Kept target elf p addend type t =
    let label = Tables.lnext p.addr t in
    bind_after-AllOf (Kept t) (Kept t) (Records.relocate p addend p.addr type label.1) _
      (relocate-Kept p addend p.addr type label.1)
      (λ t' k. weaken t t' _ k (add_relocation-Kept label.0 0 0 _ elf.riscv_pcrel_lo12_i 1 t'))

riscv_addr_cases-Kept :
    (target : Target) (elf : ElfTypes) (kind : ℕ) (p : Records.Place) (t : Tables)
    → AllOf (Kept t) (Records.riscv_addr_cases target elf kind p t)
unfolding Records.riscv_addr_cases
riscv_addr_cases-Kept target elf zero p t = with_label-Kept target elf p _ _ t
riscv_addr_cases-Kept target elf (suc zero) p t = with_label-Kept target elf p _ _ t
riscv_addr_cases-Kept target elf (suc (suc zero)) p t = Kept-refl t
riscv_addr_cases-Kept target elf (suc (suc (suc zero))) p t = relocate-Kept p _ _ _ t
riscv_addr_cases-Kept target elf (suc (suc (suc (suc k)))) p t = Kept-refl t

addr_cases-Kept :
    (target : Target) (elf : ElfTypes) (kind : ℕ) (p : Records.Place) (t : Tables)
    → AllOf (Kept t) (Records.addr_cases target elf kind p t)
unfolding Records.addr_cases
addr_cases-Kept x86_64 elf zero p t = relocate-Kept p _ _ _ t
addr_cases-Kept x86_64 elf (suc zero) p t = relocate-Kept p _ _ _ t
addr_cases-Kept x86_64 elf (suc (suc k)) p t = Kept-refl t
addr_cases-Kept rv64 elf kind p t = riscv_addr_cases-Kept rv64 elf kind p t
addr_cases-Kept rv32 elf kind p t = riscv_addr_cases-Kept rv32 elf kind p t

reloc_cases-Kept :
    (cases : Cases) (st : List Value) (l : ℕ) (t : Tables)
    → ((kind : ℕ) (p : Records.Place) (t : Tables) → AllOf (Kept t) (cases kind p t))
    → AllOf (Kept t) (Records.reloc_cases cases st l t)
unfolding Records.reloc_cases Records.placed
reloc_cases-Kept cases st l t h = bind-AllOf (Kept t) (assert _) _ (λ _.
    bind-AllOf (Kept t) (Tables.pop_number st) _ (λ kind.
      bind-AllOf (Kept t) (Tables.pop_text kind.1) _ (λ name.
        if-AllOf (Kept t) _ (some t) _ (Kept-refl t)
          (bind-AllOf (Kept t) (Tables.pop_place name.1) _ (λ p. h kind.0 _ t)))))

pub reloc_execute-Kept :
    (target : Target) (elf : ElfTypes) (st : List Value) (l : ℕ) (t : Tables)
    → AllOf (Kept t) (Records.reloc_execute target elf st l t)
unfolding Records.reloc_execute
reloc_execute-Kept target elf st l t = reloc_cases-Kept _ st l t (execute_cases-Kept target elf)

pub reloc_addr-Kept :
    (target : Target) (elf : ElfTypes) (st : List Value) (l : ℕ) (t : Tables)
    → AllOf (Kept t) (Records.reloc_addr target elf st l t)
unfolding Records.reloc_addr
reloc_addr-Kept target elf st l t = reloc_cases-Kept _ st l t (addr_cases-Kept target elf)

cell_relocation-Kept :
    (target : Target) (elf : ElfTypes) (name : Name) (st : List Value) (l : ℕ) (t : Tables)
    → AllOf (Kept t) (Records.cell_relocation target elf name st l t)
unfolding Records.cell_relocation
cell_relocation-Kept target elf name st l t =
    bind-AllOf (Kept t) (Tables.pop_number st) _ (λ word_addr.
      bind-AllOf (Kept t) (Tables.pop_number word_addr.1) _ (λ addend.
        bind-AllOf (Kept t) (Tables.pop_number addend.1) _ (λ to.
          bind-AllOf (Kept t) (Tables.pop_number to.1) _
            (λ from. add_relocation-Kept name word_addr.0 addend.0 from.0 _ l t))))

pub reloc-Kept :
    (target : Target) (elf : ElfTypes) (st : List Value) (l : ℕ) (t : Tables)
    → AllOf (Kept t) (Records.reloc target elf st l t)
unfolding Records.reloc
reloc-Kept target elf [] l t = tt
reloc-Kept target elf (number n ∷ st) l t = Kept-refl t
reloc-Kept target elf (text name ∷ st) l t =
    bind-AllOf (Kept t) (assert (length st == 4)) (λ _. below (Tables.is_empty name))
      (λ _.
        if-AllOf (Kept t) (Tables.is_empty name) (some t) _ (Kept-refl t)
          (cell_relocation-Kept target elf name st l t))
  where
    below : Bool → Option Tables
    below b = if b then some t else Records.cell_relocation target elf name st l t

pub symbol-Kept : (st : List Value) (l : ℕ) (t : Tables) → AllOf (Kept t) (Tables.symbol st l t)
unfolding Tables.symbol Tables.define
symbol-Kept st l t = bind-AllOf (Kept t) (Tables.pop_text st) _ (λ name.
    if-AllOf (Kept t) _ (some t) _ (Kept-refl t) (
      bind-AllOf (Kept t) (Tables.pop_number name.1) _ (λ word_addr.
        bind-AllOf (Kept t) (Tables.pop_number word_addr.1) _ (λ addr. unchanged _ _ _))))
  where
    unchanged :
        (b : Bool) (name : Name) (s : Tables.Symbol)
        → Kept t (if b then t else record t { dup_symbols = emplace_multi name s t.dup_symbols })
    unchanged true name s a r e = e
    unchanged false name s a r e = e
