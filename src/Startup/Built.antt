-- ===== src/Startup/Built.antt =====
-- What start-up leaves: the tables at the low end of the mapped area, and nothing written beyond
-- them.
use smolforth.Base.{
  ℕ, zero, suc, ◌+◌, ◌-◌, ◌*◌, ◌%◌, ◌^◌, ◌≤◌, ◌<◌, ◌≡◌, refl, sym, ◌∙◌, ap, arith, List, [], ◌∷◌,
  length, some, get_elem?, inl, ==_iff, ==_iff, if◌then◌else◌, ◌==◌,
}
use smolforth.Memory.{Mem, get_byte, load}
use smolforth.Compiler.{Compiler, Section, store_words, set_mem}
use smolforth.Dictionary.{to_body}
use smolforth.Dictionary.Search.{Linked}
use smolforth.Startup.{map_section, set_end, code_area, first_code}
use smolforth.Startup.Stored.{
  SameOutside, load-SameOutside, load-store_words, get_byte-store_words, AreCells,
}
use smolforth.Startup.Walk.{WordsOutside, ReadsWord, gather}
use smolforth.Startup.Loops.{the_body, the_code, the_body-ReadsWord, the_code-ReadsWord}
use smolforth.Startup.Lists.{LinkedAll, WordsOutside-append, joined, entries, gather_each}
use smolforth.Startup.Filled.{length-entries}
use mathlib.Core.Path.{subst}
use native.Mathlib.Nat.{mod-eq_of_lt, mul_comm}

-- From `start` on stand the cells `es`, and outside the area from `start` to `here` the memory is
-- the one that was mapped.
abbrev pub TablesAt : ℕ → ℕ → List ℕ → Mem → Mem → Type 0
TablesAt start here es mapped mem =
    ((i v : ℕ) → get_elem? es i ≡ some v → load 8 mem (start + 8 * i) ≡ v)
    × SameOutside start here mem mapped

module _ (lo hi : ℕ) (mem mem' : Mem) (same : SameOutside lo hi mem mem') where
  pub Linked-same :
      (w : ℕ) (ws : List ℕ) → WordsOutside lo hi ws → Linked mem' w ws → Linked mem w ws
  Linked-same w [] out h = h
  Linked-same w (x ∷ xs) out h = (
    h.0,
    h.1,
    Linked-same (load 8 mem x) xs out.1 (
        subst (λ a. Linked mem' a xs) (sym (load-SameOutside lo hi mem mem' x same (omega arith)))
          h.2),
  )

  pub LinkedAll-same :
      (fs : List ℕ) (wss : List (List ℕ))
      → WordsOutside lo hi (joined wss)
      → LinkedAll mem' fs wss
      → LinkedAll mem fs wss
  unfolding joined
  LinkedAll-same [] [] out h = tt
  LinkedAll-same [] (ws ∷ wss) out h = h
  LinkedAll-same (f ∷ fs) [] out h = h
  LinkedAll-same (f ∷ fs) (ws ∷ wss) out h =
      let parts = WordsOutside-append lo hi ws (joined wss) out in
      (Linked-same f ws parts.0 h.0, LinkedAll-same fs wss parts.1 h.1)

  gather_same :
      (g : Mem → ℕ → List ℕ)
      → ReadsWord g
      → (ws : List ℕ) → WordsOutside lo hi ws
      → gather (g mem) ws ≡ gather (g mem') ws
  unfolding gather
  gather_same g reads [] out = refl
  gather_same g reads (w ∷ ws) out =
      rw (reads lo hi mem mem' w same out.0, gather_same g reads ws out.1) refl

  pub entries_same : (ws : List ℕ) → WordsOutside lo hi ws → entries mem ws ≡ entries mem' ws
  unfolding entries
  entries_same ws out =
      rw
        (
          sym (gather_each (to_body mem) ws),
          sym (gather_each (to_body mem') ws),
          gather_same the_body the_body-ReadsWord ws out,
          gather_same the_code the_code-ReadsWord ws out,
        )
        refl

pub get_elem?-lt : (es : List ℕ) (i v : ℕ) → get_elem? es i ≡ some v → i < length es
get_elem?-lt [] i v h = cc
get_elem?-lt (e ∷ es) zero v h = omega arith
get_elem?-lt (e ∷ es) (suc i) v h = omega (arith, get_elem?-lt es i v h)

-- Entries of the linkage table written behind the cells keep them.
then_linkage :
    (es : List ℕ) (start here : ℕ) (mapped mem : Mem)
    → AreCells es
    → start + 8 * length es ≤ here
    → SameOutside (start + 8 * length es) here mem (store_words 8 es start mapped)
    → TablesAt start here es mapped mem
then_linkage es start here mapped mem cells le same = (
  λ i v at.
      load-SameOutside (start + 8 * length es) here mem (store_words 8 es start mapped)
        (start + 8 * i) same (inl (omega (arith, get_elem?-lt es i v at)))
      ∙ load-store_words es start mapped i v cells at,
  λ x o. same x (omega arith) ∙ get_byte-store_words 8 es start mapped x (omega arith),
)

-- The tables lie at `p`, and nothing but them is written. What is compiled goes from eight times
-- their size on, and the section ends 16 MiB behind them, so seven times their size is lost.
abbrev pub Ready : ℕ → ℕ → List ℕ → ℕ → Mem → Compiler → ℕ × ℕ × ℕ × ℕ → Type 0
Ready plt_bytes p es words mapped c (got_start, got_count, plt_count, plt_start) =
    let section = c.section_at c.active_section in
    let tables = 8 * length es + plt_bytes * (length es - words) in
    (got_start ≡ p)
    × (got_count ≡ length es)
    × (plt_count ≡ length es - words)
    × (plt_start ≡ p + 8 * length es)
    × (section.start ≡ p)
    × (section.gate ≡ p)
    × (section.here ≡ (p + 8 * tables) % 2 ^ 64)
    × (section.end_ ≡ p + tables + code_area)
    × TablesAt p (p + tables) es mapped c.machine.mem
    × (7 * tables ≤ code_area → section.here + (code_area - 7 * tables) ≡ section.end_)

-- The size that is asked for: the code and both tables.
abbrev pub size_for : ℕ → List ℕ → ℕ → ℕ
size_for plt_bytes es words = code_area + 8 * length es + plt_bytes * (length es - words)

if_here : (a : ℕ) (s t : Section) → (if a == a then s else t) ≡ s
if_here a s t = rw ((==_iff a a).1 refl) refl

-- The active section after both updates.
active_after :
    (c : Compiler) (start here size : ℕ) (mem : Mem)
    → let d = set_end size (set_mem mem (map_section start here c)) in
      d.section_at d.active_section ≡ record (c.section_at c.active_section) {
        start = start;
        gate = start;
        here = here;
        end_ = (start + size) % 2 ^ 64;
      }
unfolding set_end map_section
active_after c start here size mem =
    if_here c.active_section _ _
    ∙ ap {A = Section} (λ s. record s { end_ = (s.start + size) % 2 ^ 64 })
        (if_here c.active_section _ _)

-- The numbers of the tables, by the counts of the words and of those with code.
pub count_of :
    (mem : Mem) (ws : List ℕ) (words code : ℕ)
    → words ≡ length ws
    → code ≡ length (gather (the_code mem) ws)
    → (code + 2 * words ≡ length (entries mem ws))
      × (code + words ≡ length (entries mem ws) - words)
count_of mem ws words code w e =
    (omega (arith, length-entries mem ws), omega (arith, length-entries mem ws))

-- Both ports end in this way, with the linkage table written last, over the filled table `base`.
pub set_end-Ready :
    (plt_bytes p words size got plt : ℕ) (es : List ℕ) (mapped base mem : Mem) (c : Compiler)
    → (got ≡ length es) × (plt ≡ length es - words)
    → size ≡ size_for plt_bytes es words
    → p + size < 2 ^ 64
    → AreCells es
    → base ≡ store_words 8 es p mapped
    → SameOutside (p + 8 * got) (p + 8 * got + plt * plt_bytes) mem base
    → Ready plt_bytes p es words mapped
        (set_end size (set_mem mem (map_section p (first_code p got plt plt_bytes) c)))
        (p, got, plt, p + 8 * got)
unfolding set_end map_section first_code
set_end-Ready plt_bytes p words size got plt es mapped base mem c n s fits cells filled same =
    let active = active_after c p (first_code p got plt plt_bytes) size mem in
    let at_here = ap (λ s. s.here) active ∙ here_is in
    let at_end = ap (λ s. s.end_) active ∙ end_is in
    (
      refl,
      n.0,
      n.1,
      ap (λ g. p + 8 * g) n.0,
      ap (λ s. s.start) active,
      ap (λ s. s.gate) active,
      at_here,
      at_end,
      then_linkage es p (p + tables) mapped mem cells (omega arith) over,
      λ room. omega (arith, at_here, at_end, fits),
    )
  where
    tables : ℕ
    tables = 8 * length es + plt_bytes * (length es - words)

    product : plt * plt_bytes ≡ plt_bytes * (length es - words)
    product = mul_comm plt plt_bytes ∙ ap (λ k. plt_bytes * k) n.1

    here_is : first_code p got plt plt_bytes ≡ (p + 8 * tables) % 2 ^ 64
    here_is = ap (λ t. (p + t) % 2 ^ 64) (omega (arith, product, n.0))

    end_is : (p + size) % 2 ^ 64 ≡ p + tables + code_area
    end_is = mod-eq_of_lt fits ∙ omega arith

    over : SameOutside (p + 8 * length es) (p + tables) mem (store_words 8 es p mapped)
    over x o = same x (omega (arith, product)) ∙ ap (λ m. get_byte m x) filled
