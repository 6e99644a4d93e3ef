-- ===== src/Elf/Searched.antt =====
-- The search for a section stays inside the file, as far as the checks of the tool can tell.
use smolforth.Base.{
  ℕ, zero, suc, ◌+◌, ◌*◌, ◌%◌, ◌^◌, ◌≤◌, ◌<◌, ◌≡◌, refl, arith, Bool, true, false, not,
  if◌then◌else◌, ◌==◌, leb, none, some, List, length, Gives, Gives-if,
}
use smolforth.Memory.{load, load-lt}
use smolforth.Reloc.Texts.{◌>>=◌}
use smolforth.Elf.{
  Layout, File, get, verify_size, same_name, mark_section, find_section, with_names,
}
use smolforth.Elf.Inside.{Gives-bind, Gives-get, LayoutFits, member, Like}
use smolforth.Elf.Marked.{mark_section-Like}
use native.Mathlib.Nat.{suc-mul}
use mathlib.Core.Path.{subst}

-- What a check says of the file, if the sum does not wrap.
pub passed :
    (o n : ℕ) (file : File)
    → not (verify_size o n file) ≡ false
    → o + n < 2 ^ 64
    → o + n ≤ file.size
unfolding verify_size
passed o n file h small = ground arith

passed_true :
    (o n : ℕ) (file : File) → verify_size o n file ≡ true → o + n < 2 ^ 64 → o + n ≤ file.size
unfolding verify_size
passed_true o n file h small = ground arith

same_name-Inside :
    (section : List ℕ) (p : ℕ) (file : File)
    → p + length section ≤ file.size
    → Gives (λ b. Unit) (same_name section p file)
unfolding same_name
same_name-Inside section p file h =
    Gives-if (λ b. Unit) (leb (p + length section) file.size) _ none (λ e. tt)
      (λ e. absurd (big (p + length section) file.size h e))
  where
    big : (a b : ℕ) → a ≤ b → leb a b ≡ false → ⊥
    big a b h e = ground arith

-- The function returns, and has changed no byte of the header.
abbrev pub Returns : Layout → File → Bool × File → Type 0
Returns l file r = Like l.ehdr file r.1

module _ (l : Layout) (fits : LayoutFits l) (bits : l.bits ≡ 64) (section : List ℕ)
    (short : length section < 2 ^ 62) (phdr names : ℕ) (above : l.ehdr ≤ phdr)
    (low : names < 2 ^ 62) where
  find_section-Returns :
      (n sec : ℕ) (file : File)
      → phdr + member l.e_phnum 0 file * l.phdr ≤ file.size
      → sec + n * l.shdr ≤ file.size
      → l.ehdr ≤ sec
      → Gives (Returns l file) (find_section l section phdr names n sec file)
  unfolding find_section
  find_section-Returns zero sec file segments inside behind = (refl, λ x lt. refl)
  find_section-Returns (suc n) sec file segments inside behind =
      let room = one_more n sec file.size inside in
      Gives-get (Returns l file) l.sh_name sec l.shdr file _ fits.7 room.0 (
        Gives-if (Returns l file)
          (not (
            verify_size ((names + member l.sh_name sec file) % 2 ^ l.bits + length section) 1 file))
          (some (true, file)) _ (λ e. (refl, λ x lt. refl))
          (λ e.
            Gives-bind (λ b. Unit) (Returns l file)
              (same_name section (names + member l.sh_name sec file) file) _
              (same_name-Inside section (names + member l.sh_name sec file) file
                (name_room (member l.sh_name sec file) file (small_name sec file) e))
              (λ same u.
                Gives-if (Returns l file) same _ _
                  (λ e.
                    Gives-bind (Like l.ehdr file) (Returns l file) (mark_section l phdr sec file) _
                      (mark_section-Like l fits phdr sec file segments above room.0 behind)
                      (λ marked like. like))
                  (λ e. find_section-Returns n (sec + l.shdr) file segments room.1 (omega arith)))))
    where
      one_more :
          (n sec size : ℕ)
          → sec + suc n * l.shdr ≤ size
          → (sec + l.shdr ≤ size) × (sec + l.shdr + n * l.shdr ≤ size)
      one_more n sec size h = let e = suc-mul n l.shdr in (omega (arith, e), omega (arith, e))

      small_name : (sec : ℕ) (file : File) → member l.sh_name sec file < 2 ^ 32
      small_name sec file =
          subst (λ k. load l.sh_name.size file.mem (sec + l.sh_name.at) < 256 ^ k) fits.14
            (load-lt l.sh_name.size file.mem (sec + l.sh_name.at))

      name_room :
          (name : ℕ) (file : File)
          → name < 2 ^ 32
          → not (verify_size ((names + name) % 2 ^ l.bits + length section) 1 file) ≡ false
          → names + name + length section ≤ file.size
      name_room name file small e =
          let plain =
            subst (λ b. not (verify_size ((names + name) % 2 ^ b + length section) 1 file) ≡ false)
              bits e in
          omega
            (arith, passed ((names + name) % 2 ^ 64 + length section) 1 file plain (omega arith))

  -- From the header of the section of names at `shstr` on.
  pub with_names-Returns :
      (shdr shnum shstr : ℕ) (file : File)
      → phdr + member l.e_phnum 0 file * l.phdr ≤ file.size
      → shdr + shnum * l.shdr ≤ file.size
      → l.ehdr ≤ shdr
      → shstr + l.shdr ≤ file.size
      → names ≡ member l.sh_offset shstr file
      → Gives (Returns l file) (with_names l section phdr shdr shnum shstr file)
  unfolding with_names
  with_names-Returns shdr shnum shstr file segments inside behind last here =
      Gives-get (Returns l file) l.sh_offset shstr l.shdr file _ fits.9 last (
        subst continues here (
          Gives-if (Returns l file) (names == 0) (some (false, file)) _ (λ e. (refl, λ x lt. refl))
            (λ e. Gives-get (Returns l file) l.sh_size shstr l.shdr file _ fits.10 last (
              Gives-if (Returns l file)
                (verify_size ((names + member l.sh_size shstr file) % 2 ^ l.bits) 1 file)
                (find_section l section phdr names shnum shdr file) (some (true, file))
                (λ e. find_section-Returns shnum shdr file segments inside behind)
                (λ e. (refl, λ x lt. refl))))))
    where
      continues : ℕ → Type 0
      continues names = Gives (Returns l file) (
          if names == 0
          then some (false, file)
          else (get l.sh_size shstr file >>= λ size.
              if verify_size ((names + size) % 2 ^ l.bits) 1 file
              then find_section l section phdr names shnum shdr file
              else some (true, file)))
