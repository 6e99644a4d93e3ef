-- ===== src/Parse/Token.antt =====
-- WORD copies the next token to its pad as a counted string.
use smolforth.Base.{ℕ, ◌+◌, ◌-◌, ◌*◌, ◌%◌, ◌^◌, ◌≤◌, ◌<◌, ◌≡◌, ◌⊎◌, inr, refl, arith}
use mathlib.Core.Path.{subst}
use smolforth.Base.{true, false, List, ◌∷◌, length, ap, ◌∙◌}
use smolforth.Memory.{Mem, get_byte, set_byte, get_byte-set_byte, get_byte-store, load, store}
use smolforth.Machine.{Machine}
use smolforth.Stack.{on_st}
use smolforth.Stack.View.{UpStack, UpStack-cons, UpStack-ext}
use smolforth.Stack.Laws.{Holds}
use smolforth.Parse.{Place, isspace_null, skip_space, ends_token, copy_token, rounds_to, word}
use smolforth.Parse.Scan.{Run}
use smolforth.Parse.Name.{skip_space-Run}
use smolforth.Parse.Copy.{Copied, copy_token-Copied}

-- From offset `pao` of the line, the next token for the delimiter `bl` starts at offset `s` and
-- has `n` bytes: white space and nulls before it are skipped, whatever the delimiter is.
pub record IsNextToken (mem : Mem) (bl line pao lsize s n : ℕ) : Type 0 where
  pub from : pao ≤ s
  pub within : s + n ≤ lsize
  pub skipped : (j : ℕ) → pao + j < s → isspace_null (get_byte mem (line + pao + j)) ≡ true
  pub start : s < lsize → isspace_null (get_byte mem (line + s)) ≡ false
  pub solid : (j : ℕ) → j < n → ends_token bl (get_byte mem (line + s + j)) ≡ false
  pub delimited : s + n < lsize → ends_token bl (get_byte mem (line + s + n)) ≡ true

-- The pad holds the token as a counted string, the count cut to a byte; no other byte changes but
-- those of the cell that is pushed.
pub record IsCounted (mem mem' : Mem) (tokenpad st line s n : ℕ) : Type 0 where
  pub count : get_byte mem' tokenpad ≡ n % 256
  pub text : (j : ℕ) → j < n → get_byte mem' (tokenpad + 1 + j) ≡ get_byte mem (line + s + j)
  pub kept :
      (x : ℕ)
      → (x < tokenpad) ⊎ (tokenpad + 1 + n ≤ x)
      → (x + 8 < st) ⊎ (st ≤ x)
      → get_byte mem' x ≡ get_byte mem x

-- From the run of white space to `q` and the token copied behind it to what WORD promises.
module _ (tokenpad bl line lsize : ℕ) (mem : Mem) (p q : Place) (r : Place × Mem)
    (e : p.ptr ≡ line + p.offset) (a : Run isspace_null mem lsize p q)
    (c : Copied tokenpad bl lsize (record q { passed = 0 }) mem r) where
  token_ptr : q.ptr ≡ line + q.offset
  token_ptr = omega (arith, a.offset, a.ptr)

  token : IsNextToken mem bl line p.offset lsize q.offset c.n
  token = record {
    from = omega (arith, a.offset);
    within = c.within;
    skipped = λ j b. rw e at (a.all j (omega (arith, a.offset)));
    start = λ b.
        let here : p.ptr + a.n ≡ line + q.offset = omega (arith, a.ptr, token_ptr) in
        rw here at (a.longest (omega (arith, a.offset)));
    solid = λ j b. rw token_ptr at (c.solid j b);
    delimited = λ b. rw token_ptr at (c.delimited b);
  }

  count_kept :
      (x : ℕ)
      → (x < tokenpad) ⊎ (tokenpad < x)
      → get_byte (set_byte r.1 tokenpad r.0.passed) x ≡ get_byte r.1 x
  count_kept x h = ground (arith, get_byte-set_byte r.1 tokenpad r.0.passed x)

  counted :
      (st : ℕ)
      → 8 ≤ st
      → (tokenpad + 1 + lsize ≤ st - 8) ⊎ (st ≤ tokenpad)
      → IsCounted mem
          (store 8 (set_byte r.1 tokenpad r.0.passed) (st - 8) tokenpad)
          tokenpad
          st
          line
          q.offset
          c.n
  counted st b room = record {
    count =
        get_byte-store 8 _ (st - 8) tokenpad tokenpad (omega arith)
        ∙ ground (arith, get_byte-set_byte r.1 tokenpad r.0.passed tokenpad, c.passed);
    text = λ j h.
        get_byte-store 8 _ (st - 8) tokenpad (tokenpad + 1 + j) (omega (arith, c.within))
        ∙ count_kept (tokenpad + 1 + j) (inr (omega arith))
        ∙ text' j h;
    kept = λ x h k.
        get_byte-store 8 _ (st - 8) tokenpad x (omega arith)
        ∙ count_kept x (omega arith)
        ∙ c.kept x (omega arith);
  }
    where
      text' :
          (j : ℕ) → j < c.n → get_byte r.1 (tokenpad + 1 + j) ≡ get_byte mem (line + q.offset + j)
      text' j h =
          let z : tokenpad + 1 + 0 + j ≡ tokenpad + 1 + j = omega arith in
          rw (← token_ptr, ← z) (c.copied j h)

  stacked :
      (st : ℕ) (xs : List ℕ)
      → 8 ≤ st
      → (tokenpad + 1 + lsize + 8 + 8 * length xs ≤ st) ⊎ (st ≤ tokenpad)
      → tokenpad < 2 ^ 64
      → UpStack mem (st - 8) xs
      → UpStack
          (store 8 (set_byte r.1 tokenpad r.0.passed) (st - 8) tokenpad)
          (st - 8 + 8)
          (tokenpad ∷ xs)
  stacked st xs b room small h = UpStack-cons _ (st - 8) tokenpad tokenpad xs refl small (
      UpStack-ext mem _ (st - 8) xs
        (λ x l u. count_kept x (omega (arith, c.within)) ∙ c.kept x (omega (arith, c.within))) h)

module _ (tokenpad : ℕ) (m : Machine) (xs : List ℕ) where
  -- WORD copies the next token of the line to the pad as a counted string, pushes the pad's
  -- address, and moves the offset past the token and its delimiter. The pad may be overrun: a
  -- token of `n` bytes is written to `n + 1` bytes, whatever `n` is, and so the line, the stack and
  -- the bytes written must lie apart.
  pub word-IsNextToken :
      (bl : ℕ)
      → Holds on_st m (bl ∷ xs)
      → m.header.pao ≤ m.header.line_size
      → m.header.line_size < 2 ^ 31
      → m.header.line_ptr + m.header.line_size < 2 ^ 64
      → (m.header.line_ptr + m.header.line_size ≤ tokenpad)
        ⊎ (tokenpad + 1 + m.header.line_size ≤ m.header.line_ptr)
      → (tokenpad + 1 + m.header.line_size + 8 + 8 * length xs ≤ m.st) ⊎ (m.st ≤ tokenpad)
      → tokenpad < 2 ^ 64
      → let m' = (word tokenpad m).1 in
        (s n : ℕ) × IsNextToken m.mem
          (bl % 256)
          m.header.line_ptr
          m.header.pao
          m.header.line_size
          s
          n
        × IsCounted m.mem m'.mem tokenpad m.st m.header.line_ptr s n
        × Holds on_st m' (tokenpad ∷ xs)
        × (m'.header ≡ record (m.header) { pao = s + n + 1 })
  unfolding word
  word-IsNextToken bl h inside short fits apart room small =
      let p : Place = record {
        offset = m.header.pao;
        ptr = (m.header.line_ptr + m.header.pao) % 2 ^ 64;
        passed = 0;
      } in
      let lsize = m.header.line_size in
      let line = m.header.line_ptr in
      let b = load 8 m.mem (m.st - 8) % 256 in
      let q = skip_space m.mem lsize p in
      let a = skip_space-Run m.mem lsize (omega arith) p inside in
      let p' : Place = record q { passed = 0 } in
      let fuel = rounds_to q.offset lsize in
      let r = copy_token tokenpad b lsize fuel p' m.mem in
      let e : p.ptr ≡ line + p.offset = omega arith in
      let rest : q.offset + fuel ≡ lsize = omega (arith, a.offset, a.within) in
      let c =
        copy_token-Copied tokenpad b lsize (omega arith) fuel p' m.mem rest
          (omega (arith, a.offset, a.ptr)) in
      (
        q.offset,
        c.n,
        subst (λ (x : ℕ). IsNextToken m.mem (x % 256) line m.header.pao lsize q.offset c.n) h.1
            (token tokenpad b line lsize m.mem p q r e a c),
        counted tokenpad b line lsize m.mem p q r e a c m.st h.0 (omega (arith, h.0)),
        stacked tokenpad b line lsize m.mem p q r e a c m.st xs h.0 room small h.2,
        ap (λ (x : ℕ). record (m.header) { pao = x }) (omega (arith, c.offset, c.within)),
      )
