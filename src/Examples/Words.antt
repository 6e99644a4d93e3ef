-- ===== src/Examples/Words.antt =====
-- A dictionary of one word called "AB", made at 200 from a name at 500.
use smolforth.Base.{
  ℕ, zero, suc, ◌+◌, ◌-◌, ◌%◌, ◌≤◌, ◌<◌, ◌≡◌, ◌≢◌, ◌⊎◌, refl, arith, inr, true, [], ◌∷◌,
}
use smolforth.Memory.{Mem, get_byte, set_byte, load}
use smolforth.Dictionary
use smolforth.Dictionary.Named.{IsName, write_head-is_named}
use smolforth.Dictionary.Search.{Linked, count, first, find_in-first}
use smolforth.Examples.Machines.{no_memory}

abbrev pub name_at : Mem
name_at = set_byte (set_byte no_memory 500 65) 501 66

name_at-IsName : IsName name_at 500 2
unfolding get_byte set_byte
name_at-IsName = (omega arith, letters, λ e. omega arith)
  where
    letters : (i : ℕ) → i < 2 → get_byte name_at (500 + i) ≢ 0
    letters zero h e = omega arith
    letters (suc zero) h e = omega arith
    letters (suc (suc i)) h e = absurd (omega arith)

write_head-is_named_example :
    (Dictionary.is_named (Dictionary.write_head 200 500 2 1 0 name_at) 500 2 200 ≡ true)
    × (get_byte (Dictionary.write_head 200 500 2 1 0 name_at) (200 - 1) ≡ 1 % 256)
    × (load 8 (Dictionary.write_head 200 500 2 1 0 name_at) 200 ≡ 0)
    × ((x : ℕ)
        → (x < 200 - 2 - 2) ⊎ (200 + 8 ≤ x)
        → get_byte (Dictionary.write_head 200 500 2 1 0 name_at) x ≡ get_byte name_at x)
write_head-is_named_example =
    write_head-is_named 200 500 2 1 0 name_at (omega arith) (omega arith) name_at-IsName
      (inr (omega arith))

one_word-Linked : Linked name_at 200 (200 ∷ [])
unfolding load get_byte set_byte
one_word-Linked = (refl, (λ e. omega arith), refl)

find_in-first_example :
    Dictionary.find_in name_at 500 2 2 200 ≡ first (Dictionary.is_named name_at 500 2) (200 ∷ [])
unfolding count
find_in-first_example = find_in-first name_at 500 2 2 200 (200 ∷ []) one_word-Linked (omega arith)
