-- ===== src/Amd64/Compile.antt =====
-- arch/x86_64/compile.c and plt.c: compiling constants, addresses and calls, and the tables
-- through which far addresses are reached.
use smolforth.Base.{
  ℕ, zero, suc, ◌+◌, ◌-◌, ◌*◌, ◌/◌, ◌%◌, ◌^◌, Bool, if◌then◌else◌, ◌==◌, ◌||◌, not,
}
use smolforth.Base.{Option, none, some, List, ◌++◌}
use smolforth.Memory.{Mem, load}
use smolforth.Stack.{on_st, upop, pop}
use smolforth.Compiler.{Compiler, emit, here_of, set_header, store_words, drop_cell}
use smolforth.Amd64.Assembler.{
  rbx, r15, relative, asmgen_mov_imm64, asmgen_movq_put, asmgen_add_imm, asmgen_mov_take_rel32,
  asmgen_lea_rel32, asmgen_call_rel32, asmgen_jmp,
}

-- The global offset table and the procedure linkage table, `code_got_start` and the rest.
pub record Tables : Type 0 where
  pub code_got_start : ℕ
  pub code_got_count : ℕ
  pub code_plt_count : ℕ
  pub code_plt_start : ℕ

-- `sizeof(struct plt_t)`
abbrev pub plt_bytes : ℕ
plt_bytes = 9

-- The loop of `find_got` from entry `at`, with `n` entries left; `none` when it runs out.
unfoldable pub scan_got : Mem → ℕ → ℕ → ℕ → Option ℕ
scan_got mem addr zero at = none
scan_got mem addr (suc n) at =
    let rest = scan_got mem addr n (at + 8) in if load 8 mem at == addr then some at else rest

unfoldable pub found_or : Option ℕ → ℕ → ℕ
found_or none addr = addr
found_or (some p) addr = p

unfoldable pub find_got : Tables → Mem → ℕ → ℕ
unfolding scan_got found_or
find_got t mem addr = found_or (scan_got mem addr t.code_got_count t.code_got_start) addr

-- The loop of `find_plt`: the index of the entry, of which the first has index `i`.
unfoldable pub scan_plt : Mem → ℕ → ℕ → ℕ → ℕ → Option ℕ
scan_plt mem addr zero at i = none
scan_plt mem addr (suc n) at i =
    let rest = scan_plt mem addr n (at + 8) (i + 1) in
    if load 8 mem at == addr then some i else rest

unfoldable pub plt_entry : ℕ → ℕ → Option ℕ → ℕ → ℕ
plt_entry start size none addr = addr
plt_entry start size (some i) addr = start + size * i

unfoldable pub find_plt : Tables → Mem → ℕ → ℕ
unfolding scan_plt plt_entry
find_plt t mem addr =
    plt_entry t.code_plt_start plt_bytes
      (scan_plt mem addr t.code_plt_count
        (t.code_got_start + 8 * (t.code_got_count - t.code_plt_count)) 0)
      addr

-- The loop of `init_plt`: entry `i` at `plt` jumps through the entry of the table at `got`.
unfoldable pub fill_plt : ℕ → ℕ → ℕ → Mem → Mem
unfolding store_words asmgen_mov_take_rel32 asmgen_jmp
fill_plt zero plt got mem = mem
fill_plt (suc n) plt got mem =
    fill_plt n (plt + plt_bytes) (got + 8)
      (store_words 1 (asmgen_mov_take_rel32 rbx got plt ++ asmgen_jmp rbx) plt mem)

unfoldable pub init_plt : Tables → Mem → Tables × Mem
unfolding fill_plt
init_plt t mem =
    let plt = t.code_got_start + 8 * t.code_got_count in
    (
      record t { code_plt_start = plt },
      fill_plt t.code_plt_count plt (t.code_got_start + 8 * (t.code_got_count - t.code_plt_count))
          mem,
    )

unfoldable pub c_store : ℕ → ℕ → Compiler → Compiler
unfolding emit asmgen_mov_imm64
c_store reg v c = emit 1 (asmgen_mov_imm64 reg v) c.cdata c

-- RBX is pushed on the data stack.
abbrev pub push_rbx : List ℕ
push_rbx = asmgen_movq_put rbx r15 ++ asmgen_add_imm r15 8

unfoldable pub compile_constant : Compiler → Compiler
unfolding pop emit c_store asmgen_movq_put asmgen_add_imm
compile_constant c =
    let v = pop on_st c.machine in
    let stored = c_store rbx v.0 (record c { machine = v.1 }) in
    emit 1 push_rbx c.cdata (drop_cell stored)

-- `((cell)(v - here)) >> 32` is neither 0 nor -1.
unfoldable pub out_of_reach : ℕ → ℕ → Bool
out_of_reach v here =
    let d = (v + 2 ^ 64 - here) % 2 ^ 64 in not ((d / 2 ^ 32 == 0) || (d / 2 ^ 32 == 2 ^ 32 - 1))

unfoldable pub set_status : ℕ → Compiler → Compiler
set_status n c = set_header (record c.machine.header { compiler_status = n }) c

-- The address is taken from the table, or computed. `exit(1)` and a failed assert are `none`.
unfoldable pub compile_addr : Tables → Compiler → Option Compiler
unfolding upop emit find_got out_of_reach set_status asmgen_mov_take_rel32 asmgen_lea_rel32
    asmgen_movq_put asmgen_add_imm
compile_addr t c0 =
    let v = upop on_st c0.machine in
    let c = drop_cell (record c0 { machine = v.1 }) in
    let here = here_of c.cdata c in
    let g = find_got t c.machine.mem v.0 in
    let through =
      emit 1 push_rbx c.cdata
        (set_status 0 (emit 1 (asmgen_mov_take_rel32 rbx g here) c.cdata c)) in
    let direct =
      emit 1 push_rbx c.cdata (set_status 1 (emit 1 (asmgen_lea_rel32 rbx v.0 here) c.cdata c)) in
    if out_of_reach v.0 here
    then (if g == v.0 then none else (if out_of_reach g here then none else some through))
    else some direct

unfoldable pub compile_execute : Tables → Compiler → Option Compiler
unfolding pop emit find_plt out_of_reach set_status relative asmgen_call_rel32
compile_execute t c0 =
    let v0 = pop on_st c0.machine in
    let c = drop_cell (record c0 { machine = v0.1 }) in
    let here = here_of c.cdata c in
    let v = if out_of_reach v0.0 here then find_plt t c.machine.mem v0.0 else v0.0 in
    if out_of_reach v here
    then none
    else some (set_status 0 (emit 1 (asmgen_call_rel32 (relative v here)) c.cdata c))
