-- ===== src/Elf/Checked.antt =====
-- The checks of `process64l` keep it inside the file, where no number wraps around.
use smolforth.Base.{
  ℕ, zero, suc, ◌+◌, ◌-◌, ◌*◌, ◌%◌, ◌^◌, ◌≤◌, ◌<◌, ◌≡◌, refl, ap, arith, true, false, not,
  if◌then◌else◌, some, List, length, Gives, Gives-if, ltb,
}
use smolforth.Elf.{
  Layout, File, verify_size, with_names, process_section, process64l, last_entry, extend,
}
use smolforth.Elf.Inside.{Gives-get, LayoutFits, member}
use smolforth.Elf.Searched.{passed, Returns, with_names-Returns}
use native.Mathlib.Nat.{suc-mul, add-mul, mul-le-mul_right, mul-le-mul_left}
use mathlib.Core.Path.{subst}

-- A table of `num` entries behind the header, whose numbers do not wrap: an entry has at least the
-- `n` bytes of its structure.
abbrev pub SoundTable : Layout → ℕ → ℕ → ℕ → ℕ → Type 0
SoundTable l off num entsize n =
    (l.ehdr ≤ off)
    × (off < 2 ^ 62)
    × (0 < num)
    × ((num - 1) * entsize < 2 ^ 31)
    × (n ≤ entsize)
    × (n < 2 ^ 31)

last_entry_is :
    (l : Layout) (off k entsize : ℕ)
    → l.bits ≡ 64
    → off < 2 ^ 62
    → k * entsize < 2 ^ 31
    → last_entry l off (suc k) entsize ≡ off + k * entsize
unfolding last_entry extend
last_entry_is l off k entsize bits low small =
    rw (bits, product) (plain off (k * entsize) low small)
  where
    plain :
        (off v : ℕ)
        → off < 2 ^ 62
        → v < 2 ^ 31
        → (off + (if ltb v (2 ^ 31) then v else v + 2 ^ 64 - 2 ^ 32)) % 2 ^ 64 ≡ off + v
    plain off v h k = ground arith

    shifted : suc k + (2 ^ 32 - 1) ≡ k + 2 ^ 32
    shifted = omega arith

    product : (suc k + (2 ^ 32 - 1)) * entsize % 2 ^ 32 ≡ k * entsize
    product = omega (arith, ap (λ n. n * entsize) shifted, add-mul k (2 ^ 32) entsize)

table_inside :
    (l : Layout) (off num entsize n : ℕ) (file : File)
    → l.bits ≡ 64
    → SoundTable l off num entsize n
    → not (verify_size (last_entry l off num entsize) n file) ≡ false
    → off + num * n ≤ file.size
table_inside l off zero entsize n file bits sound e = absurd (omega (arith, sound.2))
table_inside l off (suc k) entsize n file bits sound e =
    let small : k * entsize < 2 ^ 31 = subst (λ j. j * entsize < 2 ^ 31) before sound.3 in
    let exact = last_entry_is l off k entsize bits sound.1 small in
    let inside =
      passed (off + k * entsize) n file (subst (λ o. not (verify_size o n file) ≡ false) exact e)
        (omega (arith, small, sound.1, sound.5)) in
    omega (arith, inside, suc-mul k n, mul-le-mul_left k sound.4)
  where
    before : suc k - 1 ≡ k
    before = omega arith

-- What follows the reading of the header.
tables_checked :
    (l : Layout) (section : List ℕ) (file : File) (phoff phentsize shoff shnum shentsize index : ℕ)
    → LayoutFits l
    → l.bits ≡ 64
    → length section < 2 ^ 62
    → SoundTable l phoff (member l.e_phnum 0 file) phentsize l.phdr
    → SoundTable l shoff shnum shentsize l.shdr
    → index < shnum
    → member l.sh_offset (shoff + index * l.shdr) file < 2 ^ 62
    → Gives (Returns l file) (
        if not (verify_size (last_entry l phoff (member l.e_phnum 0 file) phentsize) l.phdr file)
        then some (true, file)
        else (if not (verify_size (last_entry l shoff shnum shentsize) l.shdr file)
            then some (true, file)
            else with_names l section phoff shoff shnum (shoff + index * l.shdr) file))
tables_checked l section file phoff phentsize shoff shnum shentsize index fits bits short segs secs
      lt low =
    Gives-if (Returns l file)
      (not (verify_size (last_entry l phoff (member l.e_phnum 0 file) phentsize) l.phdr file))
      (some (true, file)) _ (λ e. (refl, λ x lt. refl))
      (λ segs_in.
        Gives-if (Returns l file)
          (not (verify_size (last_entry l shoff shnum shentsize) l.shdr file)) (some (true, file))
          (with_names l section phoff shoff shnum (shoff + index * l.shdr) file)
          (λ e. (refl, λ x lt. refl))
          (λ secs_in.
            let sections = table_inside l shoff shnum shentsize l.shdr file bits secs secs_in in
            let segments =
              table_inside l phoff (member l.e_phnum 0 file) phentsize l.phdr file bits segs
                segs_in in
            with_names-Returns l fits bits section short phoff
              (member l.sh_offset (shoff + index * l.shdr) file) segs.0 low shoff shnum
              (shoff + index * l.shdr) file segments sections secs.0
              (omega (arith, of_index, sections)) refl))
  where
    of_index : index * l.shdr + l.shdr ≤ shnum * l.shdr
    of_index = subst (λ n. n ≤ shnum * l.shdr) (suc-mul index l.shdr) (mul-le-mul_right l.shdr lt)

-- Offsets of 64 bits are given.
process_section-Returns :
    (l : Layout) (section : List ℕ) (file : File)
    → LayoutFits l
    → l.bits ≡ 64
    → length section < 2 ^ 62
    → l.ehdr ≤ file.size
    → SoundTable l
        (member l.e_phoff 0 file)
        (member l.e_phnum 0 file)
        (member l.e_phentsize 0 file)
        l.phdr
    → SoundTable l
        (member l.e_shoff 0 file)
        (member l.e_shnum 0 file)
        (member l.e_shentsize 0 file)
        l.shdr
    → member l.e_shstrndx 0 file < member l.e_shnum 0 file
    → member l.sh_offset (member l.e_shoff 0 file + member l.e_shstrndx 0 file * l.shdr) file
      < 2 ^ 62
    → Gives (Returns l file) (process_section l section file)
unfolding process_section
process_section-Returns l section file fits bits short header segs secs index low =
    let P = Returns l file in
    Gives-get P l.e_phoff 0 l.ehdr file _ fits.0 (omega arith) (
      Gives-get P l.e_phnum 0 l.ehdr file _ fits.1 (omega arith) (
        Gives-get P l.e_phentsize 0 l.ehdr file _ fits.2 (omega arith) (
          Gives-get P l.e_shoff 0 l.ehdr file _ fits.3 (omega arith) (
            Gives-get P l.e_shnum 0 l.ehdr file _ fits.4 (omega arith) (
              Gives-get P l.e_shentsize 0 l.ehdr file _ fits.5 (omega arith) (
                Gives-get P l.e_shstrndx 0 l.ehdr file _ fits.6 (omega arith) (
                  tables_checked l section file (member l.e_phoff 0 file)
                    (member l.e_phentsize 0 file) (member l.e_shoff 0 file)
                    (member l.e_shnum 0 file) (member l.e_shentsize 0 file)
                    (member l.e_shstrndx 0 file) fits bits short segs secs index low)))))))

-- The function returns, true or false, and neither reads nor writes outside the file, nor changes
-- its header, under these conditions. Every member lies in its structure, and `sh_name` has four
-- bytes; the name that is looked for has less than 2^62 bytes; the header lies in the file. Of each
-- of the two tables the offset is that of the end of the header or more and below 2^62, there is an
-- entry or more, the size of an entry is at least that of its structure, which is below 2^31, and the
-- entries but the last have less than 2^31 bytes. The index of the section of names is that of a
-- section, and its `sh_offset` is below 2^62. That the tables, the section of names and what is
-- searched in it lie in the file is what the function itself checks.
pub process64l-Returns :
    (l : Layout) (section : List ℕ) (file : File)
    → LayoutFits l
    → length section < 2 ^ 62
    → l.ehdr ≤ file.size
    → SoundTable l
        (member l.e_phoff 0 file)
        (member l.e_phnum 0 file)
        (member l.e_phentsize 0 file)
        l.phdr
    → SoundTable l
        (member l.e_shoff 0 file)
        (member l.e_shnum 0 file)
        (member l.e_shentsize 0 file)
        l.shdr
    → member l.e_shstrndx 0 file < member l.e_shnum 0 file
    → member l.sh_offset (member l.e_shoff 0 file + member l.e_shstrndx 0 file * l.shdr) file
      < 2 ^ 62
    → Gives (Returns l file) (process64l l section file)
unfolding process64l
process64l-Returns l section file fits short header segs secs index low =
    process_section-Returns (record l { bits = 64 }) section file fits refl short header segs secs
      index low
