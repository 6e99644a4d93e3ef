-- ===== src/RiscV/Compile.antt =====
-- arch/riscv/compile.c and plt.c for 64 bits: compiling constants, addresses and calls, and the
-- tables through which far addresses are reached.
use smolforth.Base.{
  ℕ, zero, suc, ◌+◌, ◌-◌, ◌*◌, ◌/◌, ◌%◌, ◌^◌, Bool, if◌then◌else◌, ◌==◌, ◌||◌, ◌&&◌, not,
}
use smolforth.Base.{Option, none, some, List, [], ◌∷◌, ltb, leb, bit_and}
use smolforth.Memory.{Mem, load, store, get_byte}
use smolforth.Stack.{on_st, upop, pop}
use smolforth.Compiler.{Compiler, emit, here_of, set_header, store_words, drop_cell}
use smolforth.RiscV.Names.{
  asmgen_auipc, asmgen_jal, asmgen_jalr, asmgen_addi, asmgen_ld, asmgen_sd, u_instr, j_instr,
  i_instr, s_instr,
}
use smolforth.RiscV.Constant.{c_store, lower_bits, upper_bits}
use smolforth.RiscV.Branches.{s0, a2, ra, distance, nop}
use smolforth.Dictionary.{to_body}

abbrev pub t6 : ℕ
t6 = 31

-- The global offset table and the procedure linkage table, `code_got_start` and the rest.
pub record Tables : Type 0 where
  pub code_got_start : ℕ
  pub code_got_count : ℕ
  pub code_plt_count : ℕ
  pub code_plt_start : ℕ

-- `sizeof(struct plt_t)`
abbrev pub plt_bytes : ℕ
plt_bytes = 16

-- The loop of `find_got` from entry `at`, with `n` entries left; `none` when it runs out.
unfoldable pub scan_got : Mem → ℕ → ℕ → ℕ → Option ℕ
scan_got mem addr zero at = none
scan_got mem addr (suc n) at =
    let rest = scan_got mem addr n (at + 8) in if load 8 mem at == addr then some at else rest

unfoldable pub found_or : Option ℕ → ℕ → ℕ
found_or none addr = addr
found_or (some p) addr = p

unfoldable pub find_got : Tables → Mem → ℕ → ℕ
unfolding scan_got found_or
find_got t mem addr = found_or (scan_got mem addr t.code_got_count t.code_got_start) addr

-- The loop of `find_plt`: entry `at` of the one table belongs to entry `plt` of the other.
unfoldable pub scan_plt : Mem → ℕ → ℕ → ℕ → ℕ → Option ℕ
scan_plt mem addr zero at plt = none
scan_plt mem addr (suc n) at plt =
    let rest = scan_plt mem addr n (at + 8) (plt + plt_bytes) in
    if load 8 mem at == addr then some plt else rest

unfoldable pub find_plt : Tables → Mem → ℕ → ℕ
unfolding scan_plt found_or
find_plt t mem addr =
    found_or
      (scan_plt mem addr t.code_plt_count
        (t.code_got_start + 8 * (t.code_got_count - t.code_plt_count)) t.code_plt_start)
      addr

-- The four instructions of an entry at `plt`, which jumps through the table at `got`.
unfoldable pub plt_words : ℕ → ℕ → List ℕ
unfolding distance lower_bits upper_bits u_instr i_instr
plt_words got plt =
    let y = distance got plt in
    u_instr asmgen_auipc t6 (upper_bits y)
    ∷ i_instr asmgen_ld t6 t6 (lower_bits y)
    ∷ i_instr asmgen_jalr 0 t6 0
    ∷ nop
    ∷ []

unfoldable pub fill_plt : ℕ → ℕ → ℕ → Mem → Mem
unfolding store_words plt_words
fill_plt zero plt got mem = mem
fill_plt (suc n) plt got mem =
    fill_plt n (plt + plt_bytes) (got + 8) (store_words 4 (plt_words got plt) plt mem)

unfoldable pub init_plt : Tables → Mem → Tables × Mem
unfolding fill_plt
init_plt t mem =
    let plt = t.code_got_start + 8 * t.code_got_count in
    (
      record t { code_plt_start = plt },
      fill_plt t.code_plt_count plt (t.code_got_start + 8 * (t.code_got_count - t.code_plt_count))
          mem,
    )

-- `0 != (fl & (W_EXEC|W_RUNTIME))` and `f[1]`, the test of a word that has code of its own.
unfoldable pub has_code : Mem → ℕ → Bool
has_code mem f = not (bit_and (get_byte mem (f - 1)) 48 == 0) && not (load 8 mem (f + 8) == 0)

-- `while(f) { ...; f = *f; }` of `count_got`, on fuel: the words, and those with code.
unfoldable pub count_words_of : Mem → ℕ → ℕ → ℕ × ℕ → ℕ × ℕ
unfolding has_code
count_words_of mem zero f n = n
count_words_of mem (suc fuel) f (words, code) =
    let rest =
      count_words_of mem fuel (load 8 mem f)
        (words + 1, if has_code mem f then code + 1 else code) in
    if f == 0 then (words, code) else rest

unfoldable pub count_got : Mem → ℕ → List ℕ → ℕ × ℕ → ℕ × ℕ
unfolding count_words_of
count_got mem fuel [] n = n
count_got mem fuel (f ∷ fs) n = count_got mem fuel fs (count_words_of mem fuel f n)

-- The loops of `import_got_words`, `import_got_body` and `import_got_exec` over one word list:
-- entry `at` of the table is the next.
unfoldable pub import_words : ℕ → ℕ → ℕ × Mem → ℕ × Mem
import_words zero f s = s
import_words (suc fuel) f (at, mem) =
    let stored = store 8 mem at f in
    let rest = import_words fuel (load 8 stored f) (at + 8, stored) in
    if f == 0 then (at, mem) else rest

unfoldable pub import_body : ℕ → ℕ → ℕ × Mem → ℕ × Mem
unfolding to_body
import_body zero f s = s
import_body (suc fuel) f (at, mem) =
    let stored = store 8 mem at (to_body mem f) in
    let rest = import_body fuel (load 8 stored f) (at + 8, stored) in
    if f == 0 then (at, mem) else rest

unfoldable pub import_exec : ℕ → ℕ → ℕ × Mem → ℕ × Mem
unfolding has_code
import_exec zero f s = s
import_exec (suc fuel) f (at, mem) =
    let next =
      if has_code mem f then (at + 8, store 8 mem at (load 8 mem (f + 8))) else (at, mem) in
    let rest = import_exec fuel (load 8 next.1 f) next in if f == 0 then (at, mem) else rest

-- A2 is pushed on the data stack.
abbrev pub push_a2 : List ℕ
push_a2 = s_instr asmgen_sd a2 s0 0 ∷ i_instr asmgen_addi s0 s0 8 ∷ []

unfoldable pub compile_constant : Compiler → Compiler
unfolding upop emit c_store s_instr i_instr
compile_constant c =
    let v = upop on_st c.machine in
    let stored = emit 4 (c_store a2 v.0) c.cdata (record c { machine = v.1 }) in
    emit 4 push_a2 c.cdata (drop_cell stored)

-- `((cell)(v - here)) >> 32` is neither 0 nor -1.
unfoldable pub out_of_reach : ℕ → ℕ → Bool
out_of_reach v here =
    let d = (v + 2 ^ 64 - here) % 2 ^ 64 in not ((d / 2 ^ 32 == 0) || (d / 2 ^ 32 == 2 ^ 32 - 1))

unfoldable pub set_status : ℕ → Compiler → Compiler
set_status n c = set_header (record c.machine.header { compiler_status = n }) c

-- The test of the table's answer is `g != -1`, so an address that is not there passes it.
unfoldable pub compile_addr : Tables → Compiler → Option Compiler
unfolding pop emit find_got out_of_reach set_status distance lower_bits upper_bits u_instr i_instr
    s_instr
compile_addr t c0 =
    let v = pop on_st c0.machine in
    let c = drop_cell (record c0 { machine = v.1 }) in
    let here = here_of c.cdata c in
    let g = find_got t c.machine.mem v.0 in
    let far = distance g here in
    let y = distance v.0 here in
    let through =
      u_instr asmgen_auipc a2 (upper_bits far) ∷ i_instr asmgen_ld a2 a2 (lower_bits far) ∷ [] in
    let direct = u_instr asmgen_auipc a2 (upper_bits y) ∷ [] in
    let added = i_instr asmgen_addi a2 a2 (lower_bits y) ∷ [] in
    if out_of_reach v.0 here
    then (if not (g == 2 ^ 64 - 1)
        then some (emit 4 push_a2 c.cdata (set_status 1 (emit 4 through c.cdata c)))
        else none)
    else some (
        emit 4 push_a2 c.cdata (
          if not (lower_bits y == 0)
          then set_status 0 (emit 4 added c.cdata (emit 4 direct c.cdata c))
          else set_status 3 (emit 4 direct c.cdata c)))

-- `y < -0x100000 || y > 0x100000` of an `int32_t`.
unfoldable pub far_jump : ℕ → Bool
far_jump y = ltb 0x100000 y && ltb y (2 ^ 32 - 0x100000)

unfoldable pub call_words : ℕ → Bool → List ℕ
unfolding lower_bits upper_bits u_instr i_instr j_instr
call_words y far =
    if far
    then u_instr asmgen_auipc ra (upper_bits y) ∷ i_instr asmgen_jalr ra ra (lower_bits y) ∷ []
    else j_instr asmgen_jal ra y ∷ []

unfoldable pub compile_execute : Tables → Compiler → Option Compiler
unfolding pop emit find_plt out_of_reach set_status distance far_jump call_words
compile_execute t c0 =
    let v0 = pop on_st c0.machine in
    let c = drop_cell (record c0 { machine = v0.1 }) in
    let section = c.section_at c.cdata in
    let here = section.here in
    let v = if out_of_reach v0.0 here then find_plt t c.machine.mem v0.0 else v0.0 in
    let y = distance v here in
    let far = far_jump y || ltb v section.gate || leb section.end_ v in
    if out_of_reach v here
    then none
    else some (set_status (if far then 0 else 1) (emit 4 (call_words y far) c.cdata c))
