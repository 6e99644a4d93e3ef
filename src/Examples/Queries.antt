-- ===== src/Examples/Queries.antt =====
-- ENVIRONMENT? asked for "EMBEDDED" and for "CORE" in a table of two entries.
use smolforth.Base.{◌-◌, ◌^◌, ◌≡◌, refl, arith, List, [], ◌∷◌, codes}
use smolforth.Memory.{set_byte, get_byte, load, store}
use smolforth.Machine.{Machine}
use smolforth.Stack.{on_st, pop, upop}
use smolforth.Stack.Laws.{Holds}
use smolforth.Environment
use smolforth.Environment.Search.{
  IsTable, Answered, lookup, riscv_environment_query-x86, riscv_environment_query-Answered,
}
use smolforth.Examples.Machines.{two_up}

abbrev two_queries : List Environment.Query
two_queries =
    record { q = codes "CORE"; answer = Environment.constant (2 ^ 64 - 1) }
    ∷ record { q = codes "/HOLD"; answer = Environment.constant 255 }
    ∷ []

two_queries-IsTable : IsTable two_queries
two_queries-IsTable = (omega arith, omega arith, (omega arith, omega arith, tt))

-- "/HOLD" at 500, with its address and length on the stack.
abbrev asked : Machine
asked = record {
  mem =
      set_byte
        (set_byte (set_byte (set_byte (set_byte (two_up 5 500 3 4 5 6).mem 500 47) 501 72) 502 79)
          503 76)
        504 68;
  st = 1024;
  rst = 2024;
  header = (two_up 5 500 3 4 5 6).header;
}

asked-Holds : Holds on_st asked (5 ∷ 500 ∷ 3 ∷ [])
unfolding load store get_byte set_byte
asked-Holds = (omega arith, refl, (omega arith, refl, (omega arith, refl, tt)))

riscv_environment_query-x86_example :
    Environment.riscv_environment_query two_queries asked
    ≡ Environment.x86_environment_query two_queries asked
riscv_environment_query-x86_example =
    riscv_environment_query-x86 two_queries asked two_queries-IsTable

riscv_environment_query-Answered_example :
    Answered
      (lookup (codes "/HOLD") two_queries)
      (upop on_st (pop on_st asked).1).1
      (Environment.riscv_environment_query two_queries asked).1
      (3 ∷ [])
unfolding get_byte set_byte
riscv_environment_query-Answered_example =
    riscv_environment_query-Answered two_queries (codes "/HOLD") 500 asked (3 ∷ [])
      two_queries-IsTable (omega arith) asked-Holds (refl, (refl, (refl, (refl, (refl, tt)))))
