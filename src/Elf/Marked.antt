-- ===== src/Elf/Marked.antt =====
-- The flags are written inside the file, and its header keeps.
use smolforth.Base.{
  ℕ, zero, suc, ◌+◌, ◌-◌, ◌*◌, ◌%◌, ◌^◌, ◌≤◌, ◌<◌, ◌≡◌, refl, sym, ◌∙◌, ap, arith, Bool, true,
  false, ◌&&◌, ltb, leb, ltb→lt, Option, some, Gives, Gives-map, Gives-if,
}
use smolforth.Memory.{load_ext}
use smolforth.Elf.{Field, Layout, File, or_flag, mark_segment, mark_segments, mark_section}
use smolforth.Elf.Inside.{
  Gives-bind, Gives-get, Fits, LayoutFits, member, Like, Like-trans, or_flag-Like,
}
use native.Mathlib.Nat.{suc-mul}
use mathlib.Core.Path.{subst}

-- A member of the header keeps its value.
pub Like-member :
    (header : ℕ) (f : Field) (file t : File)
    → Fits f header
    → Like header file t
    → member f 0 t ≡ member f 0 file
Like-member header f file t fits like =
    load_ext f.size t.mem file.mem (0 + f.at) (λ x lo hi. like.1 x (omega arith))

loop_test :
    (P : File → Type 0) (b : Bool) (file : File) (go_on : Option File)
    → P file
    → (b ≡ true → Gives P go_on)
    → Gives P (elim b [ false ↦ some file | true ↦ go_on ])
loop_test P true file go_on done h = h refl
loop_test P false file go_on done h = done

module _ (l : Layout) (fits : LayoutFits l) where
  mark_segment-Like :
      (moffset mend p : ℕ) (file : File)
      → p + l.phdr ≤ file.size
      → l.ehdr ≤ p
      → Gives (Like l.ehdr file) (mark_segment l moffset mend p file)
  unfolding mark_segment
  mark_segment-Like moffset mend p file inside above =
      Gives-get (Like l.ehdr file) l.p_offset p l.phdr file _ fits.12 inside (
        Gives-get (Like l.ehdr file) l.p_filesz p l.phdr file _ fits.13 inside (
          Gives-if (Like l.ehdr file)
            (leb (member l.p_offset p file) moffset
              && ltb mend ((member l.p_offset p file + member l.p_filesz p file) % 2 ^ l.bits))
            (or_flag l.p_flags p l.pf_w file) (some file)
            (λ e. or_flag-Like l.ehdr l.p_flags p l.phdr l.pf_w file fits.11 inside above)
            (λ e. (refl, λ x lt. refl))))

  -- The entries that are left lie in the file.
  pub mark_segments-Like :
      (moffset mend fuel j p : ℕ) (file : File)
      → p + (member l.e_phnum 0 file - j) * l.phdr ≤ file.size
      → l.ehdr ≤ p
      → l.ehdr ≤ file.size
      → Gives (Like l.ehdr file) (mark_segments l moffset mend fuel j p file)
  unfolding mark_segments
  mark_segments-Like moffset mend zero j p file inside above header = (refl, λ x lt. refl)
  mark_segments-Like moffset mend (suc fuel) j p file inside above header =
      Gives-get (Like l.ehdr file) l.e_phnum 0 l.ehdr file _ fits.1 (omega arith) (
        loop_test (Like l.ehdr file) (ltb j (member l.e_phnum 0 file)) file _ (refl, λ x lt. refl)
          (λ more.
            let room = left (member l.e_phnum 0 file) j p file.size (ltb→lt j _ more) inside in
            Gives-bind (Like l.ehdr file) (Like l.ehdr file) (mark_segment l moffset mend p file) _
              (mark_segment-Like moffset mend p file room.0 above)
              (λ marked like.
                Gives-map (Like l.ehdr marked) (Like l.ehdr file) _
                  (λ t. Like-trans l.ehdr file marked t like)
                  (mark_segments-Like moffset mend fuel (j + 1) (p + l.phdr) marked
                    (subst (λ n. p + l.phdr + (n - (j + 1)) * l.phdr ≤ marked.size)
                      (sym (Like-member l.ehdr l.e_phnum file marked fits.1 like))
                      (omega (arith, room.1, like.0)))
                    (omega arith) (omega (arith, like.0))))))
    where
      one_more : (a b : ℕ) → a ≡ suc b → a * l.phdr ≡ b * l.phdr + l.phdr
      one_more a b e = ap (λ n. n * l.phdr) e ∙ suc-mul b l.phdr

      left :
          (num j p size : ℕ)
          → j < num
          → p + (num - j) * l.phdr ≤ size
          → (p + l.phdr ≤ size) × (p + l.phdr + (num - (j + 1)) * l.phdr ≤ size)
      left num j p size lt h =
          let e = one_more (num - j) (num - (j + 1)) (omega arith) in
          (omega (arith, e), omega (arith, e))

  -- The section header at `sec` and the table of segments lie in the file, behind its header.
  pub mark_section-Like :
      (phdr sec : ℕ) (file : File)
      → phdr + member l.e_phnum 0 file * l.phdr ≤ file.size
      → l.ehdr ≤ phdr
      → sec + l.shdr ≤ file.size
      → l.ehdr ≤ sec
      → Gives (Like l.ehdr file) (mark_section l phdr sec file)
  unfolding mark_section
  mark_section-Like phdr sec file segments above inside behind =
      Gives-bind (Like l.ehdr file) (Like l.ehdr file) (or_flag l.sh_flags sec l.shf_write file) _
        (or_flag-Like l.ehdr l.sh_flags sec l.shdr l.shf_write file fits.8 inside behind)
        (λ marked like.
          Gives-get (Like l.ehdr file) l.sh_offset sec l.shdr marked _ fits.9
            (omega (arith, like.0))
            (Gives-get (Like l.ehdr file) l.sh_size sec l.shdr marked _ fits.10
              (omega (arith, like.0))
              (Gives-map (Like l.ehdr marked) (Like l.ehdr file) _
                (λ t. Like-trans l.ehdr file marked t like)
                (mark_segments-Like _ _ (2 ^ 16) 0 phdr marked
                  (subst (λ n. phdr + n * l.phdr ≤ marked.size)
                    (all_left (member l.e_phnum 0 file) (member l.e_phnum 0 marked)
                      (Like-member l.ehdr l.e_phnum file marked fits.1 like))
                    (omega (arith, like.0)))
                  above (omega (arith, like.0))))))
    where
      all_left : (n m : ℕ) → m ≡ n → n ≡ m - 0
      all_left n m e = omega arith
