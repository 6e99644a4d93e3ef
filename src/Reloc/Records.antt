-- ===== src/Reloc/Records.antt =====
-- `reloc`, `reloc_execute` and `reloc_addr` of reloc/obj.cpp.
use smolforth.Base.{ℕ, zero, suc, if◌then◌else◌, ◌==◌, Option, none, some, List, [], ◌∷◌, length}
use smolforth.Reloc.Texts.{◌>>=◌, ◌>>◌, assert}
use smolforth.Reloc.Tables.{
  Name, Target, x86_64, rv64, rv32, ElfTypes, Tables, Value, number, text, add_relocation, lnext,
  pop_number, pop_text, pop_place, plus, minus, is_empty,
}

-- What the relocation words have popped.
pub record Place : Type 0 where
  pub name : Name
  pub word_addr : ℕ
  pub addend : ℕ
  pub addr : ℕ
  pub local_flag : ℕ

-- A relocation of a place, with its own addend, address and type.
unfoldable pub relocate : Place → ℕ → ℕ → ℕ → Tables → Option Tables
unfolding add_relocation
relocate p addend from type = add_relocation p.name p.word_addr addend from type p.local_flag

-- FRELOC
abbrev pub freloc : Target → ElfTypes → ℕ
freloc x86_64 elf = elf.x86_64_64
freloc rv64 elf = elf.riscv_64
freloc rv32 elf = elf.riscv_32

-- The cases of `reloc_execute`; a type without a case is only reported.
unfoldable pub execute_cases : Target → ElfTypes → ℕ → Place → Tables → Option Tables
unfolding relocate
execute_cases x86_64 elf zero p =
    relocate p (minus x86_64 p.addend 4) (plus x86_64 p.addr 1) elf.x86_64_pc32
execute_cases x86_64 elf (suc zero) p = relocate p p.addend (plus x86_64 p.addr 2) elf.x86_64_64
execute_cases rv64 elf zero p = relocate p p.addend p.addr elf.riscv_call
execute_cases rv64 elf (suc zero) p = relocate p p.addend p.addr elf.riscv_jal
execute_cases rv32 elf zero p = relocate p p.addend p.addr elf.riscv_call
execute_cases rv32 elf (suc zero) p = relocate p p.addend p.addr elf.riscv_jal
execute_cases _ elf _ p = some

-- The second half of a RISC-V pair refers to a label at the first.
unfoldable pub with_label : Target → ElfTypes → Place → ℕ → ℕ → Tables → Option Tables
unfolding relocate lnext add_relocation
with_label target elf p addend type t = do
  let label = lnext p.addr t
  t' ← relocate p addend p.addr type label.1
  add_relocation label.0 0 0 (plus target p.addr 4) elf.riscv_pcrel_lo12_i 1 t'

-- The cases of `reloc_addr` for both RISC-V targets.
unfoldable pub riscv_addr_cases : Target → ElfTypes → ℕ → Place → Tables → Option Tables
unfolding with_label relocate
riscv_addr_cases target elf zero p = with_label target elf p p.addend elf.riscv_pcrel_hi20
riscv_addr_cases target elf (suc zero) p = with_label target elf p 0 elf.riscv_got_hi20
riscv_addr_cases target elf (suc (suc (suc zero))) p =
    relocate p p.addend p.addr elf.riscv_pcrel_hi20
riscv_addr_cases target elf _ p = some

unfoldable pub addr_cases : Target → ElfTypes → ℕ → Place → Tables → Option Tables
unfolding relocate riscv_addr_cases
addr_cases x86_64 elf zero p =
    relocate p (minus x86_64 p.addend 4) (plus x86_64 p.addr 3) elf.x86_64_gotpcrel
addr_cases x86_64 elf (suc zero) p =
    relocate p (minus x86_64 p.addend 4) (plus x86_64 p.addr 3) elf.x86_64_pc32
addr_cases x86_64 elf _ p = some
addr_cases rv64 elf k p = riscv_addr_cases rv64 elf k p
addr_cases rv32 elf k p = riscv_addr_cases rv32 elf k p

-- The cases of a relocation word, for the type it is given.
abbrev pub Cases : Type 0
Cases = ℕ → Place → Tables → Option Tables

-- What a relocation word does below the name.
unfoldable pub placed : Cases → ℕ → Name → List Value → ℕ → Tables → Option Tables
unfolding pop_place
placed cases kind name st local_flag t = do
  p ← pop_place st
  cases kind
      (record { name = name; word_addr = p.0; addend = p.1; addr = p.2; local_flag = local_flag }) t

-- `reloc_execute` and `reloc_addr` up to their switch.
unfoldable pub reloc_cases : Cases → List Value → ℕ → Tables → Option Tables
unfolding pop_number pop_text placed
reloc_cases cases st local_flag t = do
  assert (length st == 5)
  kind ← pop_number st
  name ← pop_text kind.1
  (if is_empty name.0 then some t else placed cases kind.0 name.0 name.1 local_flag t)

unfoldable pub reloc_execute : Target → ElfTypes → List Value → ℕ → Tables → Option Tables
unfolding reloc_cases execute_cases
reloc_execute target elf = reloc_cases (execute_cases target elf)

unfoldable pub reloc_addr : Target → ElfTypes → List Value → ℕ → Tables → Option Tables
unfolding reloc_cases addr_cases
reloc_addr target elf = reloc_cases (addr_cases target elf)

-- `reloc` below the name.
unfoldable pub cell_relocation : Target → ElfTypes → Name → List Value → ℕ → Tables → Option Tables
unfolding pop_number add_relocation
cell_relocation target elf name st local_flag t = do
  word_addr ← pop_number st
  addend ← pop_number word_addr.1
  to ← pop_number addend.1
  from ← pop_number to.1
  add_relocation name word_addr.0 addend.0 from.0 (freloc target elf) local_flag t

-- A stack of a name, a word list, an addend, where the cell points, and where it is; with a number
-- on top there is nothing to do.
unfoldable pub reloc : Target → ElfTypes → List Value → ℕ → Tables → Option Tables
unfolding cell_relocation
reloc target elf [] local_flag t = none
reloc target elf (number n ∷ st) local_flag t = some t
reloc target elf (text name ∷ st) local_flag t = do
  assert (length st == 4)
  (if is_empty name then some t else cell_relocation target elf name st local_flag t)
