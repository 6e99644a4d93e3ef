-- ===== src/Examples/Paths.antt =====
-- OPEN-FILE and CREATE-FILE of the name "AB" at 500, on a system that opens everything as 3 and counts.
use smolforth.Base.{
  ℕ, ◌+◌, ◌%◌, ◌^◌, ◌<◌, ◌≤◌, ◌≡◌, ◌≢◌, ◌⊎◌, inl, refl, arith, none, some, List, [], ◌∷◌, codes,
}
use smolforth.Memory.{set_byte, get_byte, load, store}
use smolforth.Machine.{Machine}
use smolforth.Stack.{on_st}
use smolforth.Stack.Laws.{Holds}
use smolforth.Files.{bytes_at, not_positive}
use smolforth.Files.Paths.{
  OpenCall, OpenFlags, open_flags, c_string, mode_of, open_file, create_file,
}
use smolforth.Files.Opened.{asked}
use smolforth.Files.Asked.{
  IsPath, Answered, access, create_access, open_file-Answered, create_file-Answered,
}
use smolforth.Examples.Machines.{two_up}

abbrev opens_all : OpenCall ℕ
opens_all path flags permissions calls = (some 3, calls + 1)

-- The numbers of Linux.
abbrev linux : OpenFlags
linux = record { o_rdonly = 0; o_wronly = 1; o_rdwr = 2; o_creat = 64; o_trunc = 512 }

abbrev named : Machine
named = record (two_up 4 2 500 4 5 6) {
  mem = set_byte (set_byte (two_up 4 2 500 4 5 6).mem 500 65) 501 66;
}

named-Holds : Holds on_st named (4 ∷ 2 ∷ 500 ∷ [])
unfolding load store get_byte set_byte
named-Holds = (omega arith, refl, (omega arith, refl, (omega arith, refl, tt)))

open_file-Answered_example :
    ((◌≡◌ {A = ℕ} 2 0) ⊎ (2 ^ 63 ≤ 2) ⊎ (4 % 8 ≡ 0)
      → Answered opens_all (none, 0) [] (open_file opens_all linux named 0))
    × ((path : List ℕ)
        → IsPath path (bytes_at named.mem 500 2)
        → 0 < 2
        → 2 < 2 ^ 63
        → 4 % 8 ≢ 0
        → Answered opens_all
            (opens_all path (access linux (4 % 8)) none 0)
            []
            (open_file opens_all linux named 0))
open_file-Answered_example =
    open_file-Answered opens_all linux 4 2 500 named [] 0 (λ p f os. omega arith) named-Holds

create_file-Answered_example :
    ((◌≡◌ {A = ℕ} 2 0) ⊎ (2 ^ 63 ≤ 2) ⊎ (4 % 8 ≡ 0)
      → Answered opens_all (none, 0) [] (create_file opens_all linux named 0))
    × ((path : List ℕ)
        → IsPath path (bytes_at named.mem 500 2)
        → 0 < 2
        → 2 < 2 ^ 63
        → 4 % 8 ≢ 0
        → Answered opens_all
            (opens_all path (create_access linux (4 % 8)) (some 384) 0)
            []
            (create_file opens_all linux named 0))
create_file-Answered_example =
    create_file-Answered opens_all linux 4 2 500 named [] 0 (λ p f os. omega arith) named-Holds

-- The name of that file, "AB".
named-IsPath : IsPath (codes "AB") (bytes_at named.mem 500 2)
unfolding bytes_at load store get_byte set_byte
named-IsPath = (((λ e. omega arith), ((λ e. omega arith), tt)), inl refl)

-- What the system is asked, and what it answers.
open_request :
    asked opens_all none
      (c_string (bytes_at named.mem 500 2))
      (not_positive 2)
      (open_flags linux (mode_of 4))
      0
    ≡ (some 3, 1)
unfolding asked c_string bytes_at not_positive open_flags
open_request = refl
