-- ===== src/Elf/Inside.antt =====
-- The tool stays inside the file, if no number of the headers wraps around.
use smolforth.Base.{
  ℕ, ◌+◌, ◌≤◌, ◌<◌, ◌≡◌, inl, refl, sym, ◌∙◌, arith, true, false, leb, bit_or, Option, none, some,
  Gives, Gives-if,
}
use smolforth.Memory.{get_byte, load, get_byte-store}
use smolforth.Reloc.Texts.{◌>>=◌}
use smolforth.Elf.{Field, Layout, File, get, put, or_flag}
use mathlib.Core.Path.{subst}

pub Gives-bind :
    {A B : Type 0} (P : A → Type 0) (Q : B → Type 0) (m : Option A) (f : A → Option B)
    → Gives P m
    → ((a : A) → P a → Gives Q (f a))
    → Gives Q (m >>= f)
Gives-bind P Q none f p h = absurd p
Gives-bind P Q (some a) f p h = h a p

-- A member lies in its structure.
abbrev pub Fits : Field → ℕ → Type 0
Fits f n = f.at + f.size ≤ n

abbrev pub LayoutFits : Layout → Type 0
LayoutFits l =
    Fits l.e_phoff l.ehdr
    × Fits l.e_phnum l.ehdr
    × Fits l.e_phentsize l.ehdr
    × Fits l.e_shoff l.ehdr
    × Fits l.e_shnum l.ehdr
    × Fits l.e_shentsize l.ehdr
    × Fits l.e_shstrndx l.ehdr
    × Fits l.sh_name l.shdr
    × Fits l.sh_flags l.shdr
    × Fits l.sh_offset l.shdr
    × Fits l.sh_size l.shdr
    × Fits l.p_flags l.phdr
    × Fits l.p_offset l.phdr
    × Fits l.p_filesz l.phdr
    × (l.sh_name.size ≡ 4)

-- The member as it stands in the file.
abbrev pub member : Field → ℕ → File → ℕ
member f p file = load f.size file.mem (p + f.at)

get-member :
    (f : Field) (p n : ℕ) (file : File)
    → Fits f n
    → p + n ≤ file.size
    → get f p file ≡ some (member f p file)
unfolding get
get-member f p n file fits h = rw (lem (p + f.at + f.size) file.size (omega arith)) refl
  where
    lem : (a b : ℕ) → a ≤ b → leb a b ≡ true
    lem a b h = ground arith

-- Writes leave the size of the file and its header as they were.
abbrev pub Like : ℕ → File → File → Type 0
Like header file t =
    (t.size ≡ file.size) × ((x : ℕ) → x < header → get_byte t.mem x ≡ get_byte file.mem x)

pub Like-trans : (header : ℕ) (a b c : File) → Like header a b → Like header b c → Like header a c
Like-trans header a b c h k = (k.0 ∙ h.0, λ x lt. k.1 x lt ∙ h.1 x lt)

put-Like :
    (header : ℕ) (f : Field) (p n v : ℕ) (file : File)
    → Fits f n
    → p + n ≤ file.size
    → header ≤ p
    → Gives (Like header file) (put f p v file)
unfolding put
put-Like header f p n v file fits h above =
    Gives-if (Like header file) (leb (p + f.at + f.size) file.size) _ none
      (λ e. (refl, λ x lt. get_byte-store f.size file.mem (p + f.at) v x (inl (omega arith))))
      (λ e. absurd (big (p + f.at + f.size) file.size (omega arith) e))
  where
    big : (a b : ℕ) → a ≤ b → leb a b ≡ false → ⊥
    big a b h e = ground arith

-- Reading a member that lies in the file goes on with its value.
pub Gives-get :
    {B : Type 0} (Q : B → Type 0) (f : Field) (p n : ℕ) (file : File) (k : ℕ → Option B)
    → Fits f n
    → p + n ≤ file.size
    → Gives Q (k (member f p file))
    → Gives Q (get f p file >>= k)
Gives-get Q f p n file k fits h g =
    subst (λ o. Gives Q (o >>= k)) (sym (get-member f p n file fits h)) g

pub or_flag-Like :
    (header : ℕ) (f : Field) (p n v : ℕ) (file : File)
    → Fits f n
    → p + n ≤ file.size
    → header ≤ p
    → Gives (Like header file) (or_flag f p v file)
unfolding or_flag
or_flag-Like header f p n v file fits h above =
    Gives-get (Like header file) f p n file _ fits h
      (put-Like header f p n (bit_or (member f p file) v) file fits h above)
