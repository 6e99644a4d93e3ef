-- ===== src/Reloc/Placed.antt =====
-- What pushing a section header keeps: every header so far has the place and size of its part.
use smolforth.Base.{
  ℕ, zero, suc, ◌+◌, ◌%◌, ◌^◌, ◌≡◌, sym, ap, ◌∙◌, true, false, Option, none, some, List, [], ◌∷◌,
  ◌++◌, length, length-append,
}
use smolforth.Reloc.Tables.{Name, Target, width}
use smolforth.Reloc.Headers.{Shdr, Layout, push_section}
use smolforth.Reloc.Layout as Laying
use smolforth.Reloc.Offsets.{StandsAt, StandsAt-longer}
use mathlib.Core.List.{append-nil}
use native.Mathlib.Nat.{add-mod}

-- What a header describes of the file: nothing, or some bytes.
abbrev pub Part : Type 0
Part = Option (List ℕ)

-- The offset and the size of a header are those of its part.
abbrev pub IsPlaced : ℕ → List ℕ → Shdr → Part → Type 0
IsPlaced bits s h none = Unit {0}
IsPlaced bits s h (some c) = StandsAt bits s h.sh_offset c × (length c % 2 ^ bits ≡ h.sh_size)

abbrev pub AllPlaced : ℕ → List ℕ → List Shdr → List Part → Type 0
AllPlaced bits s [] [] = Unit {0}
AllPlaced bits s (h ∷ hs) (c ∷ cs) = IsPlaced bits s h c × AllPlaced bits s hs cs
AllPlaced bits s _ _ = ⊥

-- The layout after the bytes `out`, which the parts make up.
abbrev pub IsLaid : Target → List ℕ → Layout → List Part → Type 0
IsLaid target out l cs =
    AllPlaced (width target) out l.sections cs × (length out % 2 ^ width target ≡ l.next_file_pos)

IsPlaced-longer :
    (bits : ℕ) (s u : List ℕ) (h : Shdr) (c : Part)
    → IsPlaced bits s h c
    → IsPlaced bits (s ++ u) h c
IsPlaced-longer bits s u h none p = tt
IsPlaced-longer bits s u h (some c) p = (StandsAt-longer bits s c u _ p.0, p.1)

pub AllPlaced-longer :
    (bits : ℕ) (s u : List ℕ) (hs : List Shdr) (cs : List Part)
    → AllPlaced bits s hs cs
    → AllPlaced bits (s ++ u) hs cs
AllPlaced-longer bits s u [] [] p = tt
AllPlaced-longer bits s u [] (c ∷ cs) p = elim p [ ]
AllPlaced-longer bits s u (h ∷ hs) [] p = elim p [ ]
AllPlaced-longer bits s u (h ∷ hs) (c ∷ cs) p =
    (IsPlaced-longer bits s u h c p.0, AllPlaced-longer bits s u hs cs p.1)

AllPlaced-snoc :
    (bits : ℕ) (s : List ℕ) (hs : List Shdr) (cs : List Part) (h : Shdr) (c : Part)
    → AllPlaced bits s hs cs
    → IsPlaced bits s h c
    → AllPlaced bits s (hs ++ (h ∷ [])) (cs ++ (c ∷ []))
AllPlaced-snoc bits s [] [] h c p q = (q, tt)
AllPlaced-snoc bits s [] (d ∷ cs) h c p q = elim p [ ]
AllPlaced-snoc bits s (g ∷ hs) [] h c p q = elim p [ ]
AllPlaced-snoc bits s (g ∷ hs) (d ∷ cs) h c p q = (p.0, AllPlaced-snoc bits s hs cs h c p.1 q)

-- A header without a part of the file.
pub push_section-apart :
    (target : Target) (hdr : Shdr) (name : Name) (out : List ℕ) (l : Layout) (cs : List Part)
    → IsLaid target out l cs
    → IsLaid target out (push_section target hdr name false l) (cs ++ (none ∷ []))
unfolding push_section
push_section-apart target hdr name out l cs p =
    (AllPlaced-snoc (width target) out l.sections cs _ none p.0 tt, p.1)

-- A header whose part is written next.
pub push_section-IsLaid :
    (target : Target) (hdr : Shdr) (name : Name) (out c : List ℕ) (l : Layout) (cs : List Part)
    → length c % 2 ^ width target ≡ hdr.sh_size
    → IsLaid target out l cs
    → IsLaid target (out ++ c) (push_section target hdr name true l) (cs ++ (some c ∷ []))
unfolding push_section
push_section-IsLaid target hdr name out c l cs size p =
    let w = width target in
    let here : StandsAt w (out ++ c) l.next_file_pos c =
      (out, [], sym (append-nil (out ++ c)), p.1) in
    (
      AllPlaced-snoc w (out ++ c) l.sections cs _ (some c)
          (AllPlaced-longer w out c l.sections cs p.0) (here, size),
      ap (λ n. n % 2 ^ w) (length-append out c)
          ∙ add-mod (length out) (length c) (2 ^ w)
          ∙ ap (λ n. (n + length c % 2 ^ w) % 2 ^ w) p.1
          ∙ ap (λ n. (l.next_file_pos + n) % 2 ^ w) size,
    )

-- Setting links moves nothing.
pub link_all-AllPlaced :
    (bits : ℕ) (s : List ℕ) (n : ℕ) (hs : List Shdr) (cs : List Part)
    → AllPlaced bits s hs cs
    → AllPlaced bits s (Laying.link_all n hs) cs
unfolding Laying.link_all
link_all-AllPlaced bits s n [] [] p = tt
link_all-AllPlaced bits s n [] (c ∷ cs) p = elim p [ ]
link_all-AllPlaced bits s n (h ∷ hs) [] p = elim p [ ]
link_all-AllPlaced bits s n (h ∷ hs) (none ∷ cs) p = (tt, link_all-AllPlaced bits s n hs cs p.1)
link_all-AllPlaced bits s n (h ∷ hs) (some c ∷ cs) p = (p.0, link_all-AllPlaced bits s n hs cs p.1)

pub set_link-AllPlaced :
    (bits : ℕ) (s : List ℕ) (i n : ℕ) (hs : List Shdr) (cs : List Part)
    → AllPlaced bits s hs cs
    → AllPlaced bits s (Laying.set_link i n hs) cs
unfolding Laying.set_link
set_link-AllPlaced bits s i n [] [] p = tt
set_link-AllPlaced bits s i n [] (c ∷ cs) p = elim p [ ]
set_link-AllPlaced bits s i n (h ∷ hs) [] p = elim p [ ]
set_link-AllPlaced bits s zero n (h ∷ hs) (none ∷ cs) p = (tt, p.1)
set_link-AllPlaced bits s zero n (h ∷ hs) (some c ∷ cs) p = p
set_link-AllPlaced bits s (suc i) n (h ∷ hs) (c ∷ cs) p =
    (p.0, set_link-AllPlaced bits s i n hs cs p.1)
