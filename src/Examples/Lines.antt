-- ===== src/Examples/Lines.antt =====
use smolforth.Base.{ℕ, ◌+◌, ◌≡◌, ◌%◌, inl, inr, refl, arith, [], ◌∷◌}
use smolforth.Memory.{load, store, get_byte, set_byte}
use smolforth.Machine.{Machine}
use smolforth.Stack.{on_st}
use smolforth.Stack.Laws.{Holds}
use smolforth.Parse.{parse_name, word}
use smolforth.Parse.Name.{IsNextName, parse_name-IsNextName}
use smolforth.Parse.Token.{IsNextToken, IsCounted, word-IsNextToken}
use smolforth.Examples.Machines.{two_up}

-- The line " dup x" at 3000.
abbrev typed : Machine
typed = let m = two_up 32 2 3 0 0 0 in record m { mem = store 6 m.mem 3000 0x78_20_70_75_64_20 }

typed-Holds : Holds on_st typed (32 ∷ 2 ∷ 3 ∷ [])
unfolding load store get_byte set_byte
typed-Holds = (omega arith, refl, (omega arith, refl, (omega arith, refl, tt)))

parse_name-IsNextName_example :
    let m' = (parse_name typed).1 in
    (s n : ℕ) × IsNextName typed.mem 3000 0 6 s n
    × Holds on_st m' (n ∷ (3000 + s) ∷ 32 ∷ 2 ∷ 3 ∷ [])
    × (m'.header ≡ record (typed.header) { pao = s + n + 1 })
parse_name-IsNextName_example =
    parse_name-IsNextName typed (32 ∷ 2 ∷ 3 ∷ []) typed-Holds (omega arith) (omega arith)
      (omega arith)

word-IsNextToken_example :
    let m' = (word 5000 typed).1 in
    (s n : ℕ) × IsNextToken typed.mem (32 % 256) 3000 0 6 s n
    × IsCounted typed.mem m'.mem 5000 1024 3000 s n
    × Holds on_st m' (5000 ∷ 2 ∷ 3 ∷ [])
    × (m'.header ≡ record (typed.header) { pao = s + n + 1 })
word-IsNextToken_example =
    word-IsNextToken 5000 typed (2 ∷ 3 ∷ []) 32 typed-Holds (omega arith) (omega arith)
      (omega arith) (inl (omega arith)) (inr (omega arith)) (omega arith)

-- The name begins at 3001, has three bytes, and the offset moves past the blank behind it.
name_of_line : (load 8 (parse_name typed).1.mem 1024 ≡ 3001) × ((parse_name typed).1.header.pao ≡ 5)
unfolding parse_name load store get_byte set_byte
name_of_line = (refl, refl)
