-- ===== src/Elf.antt =====
-- make-elf-writable.c, a build tool that makes sections of an ELF file writable: `process32l` and
-- `process64l` are one text over the structures of elf.h, whose layout is a parameter here. The file
-- is mapped to memory, and an access outside it, which has no meaning in C, is `none`.
pub mod Inside
pub mod Marked
pub mod Searched
pub mod Checked
use smolforth.Base.{
  ℕ, zero, suc, ◌+◌, ◌-◌, ◌*◌, ◌%◌, ◌^◌, Bool, true, false, ◌&&◌, not, if◌then◌else◌, ◌==◌, ltb,
  leb, bit_or, Option, none, some, List, [], ◌∷◌, length, same_text,
}
use smolforth.Memory.{Mem, get_byte, load, store}
use smolforth.Files.{bytes_at}
use smolforth.Reloc.Texts.{◌>>=◌}

-- A member of a structure: where it stands, and how many bytes it has.
pub record Field : Type 0 where
  pub at : ℕ
  pub size : ℕ

-- `Elf32_Ehdr` and the others, or those of 64 bits, of which an offset has `bits` bits.
pub record Layout : Type 0 where
  pub bits : ℕ
  pub ehdr : ℕ
  pub phdr : ℕ
  pub shdr : ℕ
  pub e_phoff : Field
  pub e_phnum : Field
  pub e_phentsize : Field
  pub e_shoff : Field
  pub e_shnum : Field
  pub e_shentsize : Field
  pub e_shstrndx : Field
  pub sh_name : Field
  pub sh_flags : Field
  pub sh_offset : Field
  pub sh_size : Field
  pub p_flags : Field
  pub p_offset : Field
  pub p_filesz : Field
  pub shf_write : ℕ
  pub pf_w : ℕ

pub record File : Type 0 where
  pub mem : Mem
  pub size : ℕ

unfoldable pub get : Field → ℕ → File → Option ℕ
get f p file =
    if leb (p + f.at + f.size) file.size then some (load f.size file.mem (p + f.at)) else none

unfoldable pub put : Field → ℕ → ℕ → File → Option File
put f p v file =
    if leb (p + f.at + f.size) file.size
    then some (record file { mem = store f.size file.mem (p + f.at) v })
    else none

-- `VERIFYSIZE(O, T)` passes: `sizeof` is a number of 64 bits.
unfoldable pub verify_size : ℕ → ℕ → File → Bool
verify_size o n file = leb ((o + n) % 2 ^ 64) file.size

-- An `int` of the pattern `v`, as an offset.
unfoldable pub extend : ℕ → ℕ → ℕ
extend bits v = if ltb v (2 ^ 31) then v else v + 2 ^ bits - 2 ^ 32

-- `off + (num - 1) * entsize`, of which the product is an `int`.
unfoldable pub last_entry : Layout → ℕ → ℕ → ℕ → ℕ
unfolding extend
last_entry l off num entsize =
    (off + extend l.bits ((num + (2 ^ 32 - 1)) * entsize % 2 ^ 32)) % 2 ^ l.bits

-- `memcmp(section, shn + sec->sh_name, strlen(section)) == 0`
unfoldable pub same_name : List ℕ → ℕ → File → Option Bool
unfolding same_text
same_name section p file =
    if leb (p + length section) file.size
    then some (same_text section (bytes_at file.mem p (length section)))
    else none

-- `|=` of a member.
unfoldable pub or_flag : Field → ℕ → ℕ → File → Option File
unfolding get put
or_flag f p v file = do flags ← get f p file; put f p (bit_or flags v) file

-- A round of the inner loop, for the entry at `p`.
unfoldable pub mark_segment : Layout → ℕ → ℕ → ℕ → File → Option File
unfolding get or_flag
mark_segment l moffset mend p file = do
  offset ← get l.p_offset p file
  filesz ← get l.p_filesz p file
  if leb offset moffset && ltb mend ((offset + filesz) % 2 ^ l.bits)
      then or_flag l.p_flags p l.pf_w file
      else some file

-- The inner loop, at entry `j`, which stands at `p`. `e_phnum` is read anew in every round.
unfoldable pub mark_segments : Layout → ℕ → ℕ → ℕ → ℕ → ℕ → File → Option File
unfolding get mark_segment
mark_segments l moffset mend zero j p file = some file
mark_segments l moffset mend (suc fuel) j p file = do
  num ← get l.e_phnum 0 file
  elim (ltb j num) [
    | false ↦ some file
    | true ↦ do
      marked ← mark_segment l moffset mend p file
      mark_segments l moffset mend fuel (j + 1) (p + l.phdr) marked
  ]

-- A section that has the name: its flag, and those of the segments around it. `Elf64_Word` too has
-- 32 bits.
unfoldable pub mark_section : Layout → ℕ → ℕ → File → Option File
unfolding get or_flag mark_segments
mark_section l phdr sec file = do
  marked ← or_flag l.sh_flags sec l.shf_write file
  moffset ← get l.sh_offset sec marked
  size ← get l.sh_size sec marked
  mark_segments l moffset ((moffset + size % 2 ^ 32) % 2 ^ l.bits) (2 ^ 16) 0 phdr marked

-- The loop over the sections, with `n` left, the next at `sec`, and the names at `names`. The answer
-- is that of the function: true is failure.
unfoldable pub find_section : Layout → List ℕ → ℕ → ℕ → ℕ → ℕ → File → Option (Bool × File)
unfolding get verify_size same_name mark_section
find_section l section phdr names zero sec file = some (false, file)
find_section l section phdr names (suc n) sec file = do
  name ← get l.sh_name sec file
  if not (verify_size ((names + name) % 2 ^ l.bits + length section) 1 file)
      then some (true, file)
      else (do
        same ← same_name section (names + name) file
        let rest = find_section l section phdr names n (sec + l.shdr) file
        (if same then mark_section l phdr sec file >>= (λ marked. some (false, marked)) else rest))

-- From the header of the section of names at `shstr` on.
unfoldable pub with_names : Layout → List ℕ → ℕ → ℕ → ℕ → ℕ → File → Option (Bool × File)
unfolding get verify_size find_section
with_names l section phdr shdr shnum shstr file = do
  names ← get l.sh_offset shstr file
  if names == 0 then some (false, file) else (do
    size ← get l.sh_size shstr file
    (if verify_size ((names + size) % 2 ^ l.bits) 1 file
        then find_section l section phdr names shnum shdr file
        else some (true, file)))

-- `process64l`, and `process32l`.
unfoldable pub process_section : Layout → List ℕ → File → Option (Bool × File)
unfolding get verify_size last_entry with_names
process_section l section file = do
  phoff ← get l.e_phoff 0 file
  phnum ← get l.e_phnum 0 file
  phentsize ← get l.e_phentsize 0 file
  shoff ← get l.e_shoff 0 file
  shnum ← get l.e_shnum 0 file
  shentsize ← get l.e_shentsize 0 file
  shstrndx ← get l.e_shstrndx 0 file
  if not (verify_size (last_entry l phoff phnum phentsize) l.phdr file)
      then some (true, file)
      else (if not (verify_size (last_entry l shoff shnum shentsize) l.shdr file)
          then some (true, file)
          else with_names l section phoff shoff shnum (shoff + shstrndx * l.shdr) file)

unfoldable pub process_all : Layout → List (List ℕ) → File → Option (Bool × File)
unfolding process_section
process_all l [] file = some (false, file)
process_all l (section ∷ more) file = do
  done ← process_section l section file
  let rest = process_all l more done.1
  if done.0 then some (true, done.1) else rest

-- `process64`, and `process32`.
unfoldable pub process : Layout → List (List ℕ) → File → Option (Bool × File)
unfolding verify_size get process_all
process l sections file = if not (verify_size 0 l.ehdr file) then some (true, file) else (do
  phentsize ← get l.e_phentsize 0 file
  shentsize ← get l.e_shentsize 0 file
  (if ltb phentsize l.phdr
      then some (true, file)
      else (if ltb shentsize l.shdr then some (true, file) else process_all l sections file)))

unfoldable pub process32l : Layout → List ℕ → File → Option (Bool × File)
unfolding process_section
process32l l = process_section (record l { bits = 32 })

unfoldable pub process64l : Layout → List ℕ → File → Option (Bool × File)
unfolding process_section
process64l l = process_section (record l { bits = 64 })

unfoldable pub process32 : Layout → List (List ℕ) → File → Option (Bool × File)
unfolding process
process32 l = process (record l { bits = 32 })

unfoldable pub process64 : Layout → List (List ℕ) → File → Option (Bool × File)
unfolding process
process64 l = process (record l { bits = 64 })

-- The constants of elf.h and the structures of both sizes.
pub record ElfHeaders : Type 0 where
  pub layout32 : Layout
  pub layout64 : Layout
  pub elfclassnone : ℕ
  pub elfclass32 : ℕ
  pub elfclass64 : ℕ

-- What main returns, with the file as it is left.
unfoldable pub exit_code : Option (Bool × File) → Option (ℕ × File)
exit_code none = none
exit_code (some (failed, file)) = some (if failed then 1 else 0, file)

-- `switch(mem[4])`: another class ends with 0.
unfoldable pub process_class : ElfHeaders → ℕ → List (List ℕ) → File → Option (ℕ × File)
unfolding process32 process64 exit_code
process_class h class sections file =
    if class == h.elfclass32
    then exit_code (process32 h.layout32 sections file)
    else (if class == h.elfclass64
        then exit_code (process64 h.layout64 sections file)
        else some (if class == h.elfclassnone then 1 else 0, file))

-- main behind the calls of the system, with the names of the sections after the path, and the file if
-- `open`, `fstat` and `mmap` succeeded, which is mapped only after its size has been tested.
unfoldable pub elf_main : ElfHeaders → List (List ℕ) → File → Option (ℕ × File)
unfolding process_class
elf_main h [] file = some (1, file)
elf_main h (section ∷ more) file =
    if leb file.size h.layout32.ehdr
    then some (1, file)
    else (if same_text (127 ∷ 69 ∷ 76 ∷ 70 ∷ []) (bytes_at file.mem 0 4)
        then process_class h (get_byte file.mem 4) (section ∷ more) file
        else some (1, file))
