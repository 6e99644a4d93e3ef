-- ===== src/Dictionary/Named.antt =====
-- A word that make_word has written is found under its name, with its flags and its link.
use smolforth.Base.{ℕ, ◌+◌, ◌-◌, ◌%◌, ◌^◌, ◌≤◌, ◌<◌, ◌≡◌, ◌≢◌, ◌⊎◌, arith}
use smolforth.Base.{if◌then◌else◌, ◌==◌, true, false, Bool, ◌∙◌, sym}
use smolforth.Memory.{Mem, get_byte, load, store, get_byte-store, load-store, load_ext}
use smolforth.Dictionary
use smolforth.Dictionary.Head.{
  set_same, set_other, at, copy_bytes_out, copy_bytes_in, name_length_counts, skip_ones_none,
  same_bytes_all,
}

-- A name that FIND can read back: no byte is null, and the last is not 1.
abbrev pub IsName : Mem → ℕ → ℕ → Type 0
IsName mem name nlen =
    (0 < nlen)
    × ((i : ℕ) → i < nlen → get_byte mem (name + i) ≢ 0)
    × (get_byte mem (name + (nlen - 1)) ≢ 1)

-- The bytes that the head of a word at `w` takes do not touch the name that is copied.
abbrev pub Apart : ℕ → ℕ → ℕ → Type 0
Apart w name nlen = (name + nlen ≤ w - 2 - nlen) ⊎ (w + 8 ≤ name)

module _ (w name nlen flags latest : ℕ) (mem : Mem) (room : nlen + 2 < w) where
  -- Every byte but those of the head is as before.
  head_out :
      (x : ℕ)
      → (x < w - 2 - nlen) ⊎ (w + 8 ≤ x)
      → get_byte (Dictionary.write_head w name nlen flags latest mem) x ≡ get_byte mem x
  unfolding Dictionary.write_head
  head_out x out =
      set_other _ (w - 2 - nlen) 0 x (λ e. omega arith)
      ∙ copy_bytes_out (w - 1 - nlen) name nlen _ x (omega arith)
      ∙ set_other _ (w - 1) flags x (λ e. omega arith)
      ∙ get_byte-store 8 mem w latest x (omega arith)

  head_end : get_byte (Dictionary.write_head w name nlen flags latest mem) (w - 2 - nlen) ≡ 0
  unfolding Dictionary.write_head
  head_end = set_same _ (w - 2 - nlen) 0

  head_flags : get_byte (Dictionary.write_head w name nlen flags latest mem) (w - 1) ≡ flags % 256
  unfolding Dictionary.write_head
  head_flags =
      set_other _ (w - 2 - nlen) 0 (w - 1) (λ e. omega arith)
      ∙ copy_bytes_out (w - 1 - nlen) name nlen _ (w - 1) (omega arith)
      ∙ set_same _ (w - 1) flags

  head_link :
      latest < 2 ^ 64 → load 8 (Dictionary.write_head w name nlen flags latest mem) w ≡ latest
  unfolding Dictionary.write_head
  head_link fits =
      load_ext 8 _ (store 8 mem w latest) w (λ x p q.
        set_other _ (w - 2 - nlen) 0 x (λ e. omega arith)
        ∙ copy_bytes_out (w - 1 - nlen) name nlen _ x (omega arith)
        ∙ set_other _ (w - 1) flags x (λ e. omega arith))
      ∙ load-store 8 mem w latest fits

  head_name :
      Apart w name nlen
      → (i : ℕ) → i < nlen
      → get_byte (Dictionary.write_head w name nlen flags latest mem) (w - 1 - nlen + i)
        ≡ get_byte mem (name + i)
  unfolding Dictionary.write_head
  head_name apart i lt =
      set_other _ (w - 2 - nlen) 0 (w - 1 - nlen + i) (λ e. omega arith)
      ∙ copy_bytes_in (w - 1 - nlen) name nlen _ i lt (omega arith)
      ∙ set_other _ (w - 1) flags (name + i) (λ e. omega arith)
      ∙ get_byte-store 8 mem w latest (name + i) (omega arith)

-- The head of a word, once written by make_word, passes FIND's test of the name it was made with,
-- has the flags that it was given as a byte, links to the word that was the latest, and leaves
-- every byte outside it alone. The name has no null byte and does not end in a byte 1, its bytes
-- are apart from the head, and there is room for the head below `w`.
pub write_head-is_named :
    (w name nlen flags latest : ℕ) (mem : Mem)
    → nlen + 2 < w
    → latest < 2 ^ 64
    → IsName mem name nlen
    → Apart w name nlen
    → (Dictionary.is_named (Dictionary.write_head w name nlen flags latest mem) name nlen w ≡ true)
      × (get_byte (Dictionary.write_head w name nlen flags latest mem) (w - 1) ≡ flags % 256)
      × (load 8 (Dictionary.write_head w name nlen flags latest mem) w ≡ latest)
      × ((x : ℕ)
          → (x < w - 2 - nlen) ⊎ (w + 8 ≤ x)
          → get_byte (Dictionary.write_head w name nlen flags latest mem) x ≡ get_byte mem x)
unfolding Dictionary.is_named Dictionary.name_eq
write_head-is_named w name nlen flags latest mem room fits good apart = (
  rw (skipped, counted)
      (test_true nlen _ (
        same_bytes_all m (w - 2 - nlen + 1) name nlen (λ i lt.
          at m (w - 2 - nlen + 1 + i) (w - 1 - nlen + i) (omega arith)
          ∙ named i lt
          ∙ sym (kept (name + i) (omega arith))))),
  head_flags w name nlen flags latest mem room,
  head_link w name nlen flags latest mem room fits,
  kept,
)
  where
    m : Mem
    m = Dictionary.write_head w name nlen flags latest mem

    kept : (x : ℕ) → (x < w - 2 - nlen) ⊎ (w + 8 ≤ x) → get_byte m x ≡ get_byte mem x
    kept = head_out w name nlen flags latest mem room

    named : (i : ℕ) → i < nlen → get_byte m (w - 1 - nlen + i) ≡ get_byte mem (name + i)
    named = head_name w name nlen flags latest mem room apart

    skipped : Dictionary.skip_ones m (w - 2) ≡ w - 2
    skipped = skip_ones_none m (w - 2) (λ e. good.2 (
        sym (named (nlen - 1) (omega arith))
        ∙ at m (w - 1 - nlen + (nlen - 1)) (w - 2) (omega arith)
        ∙ e))

    counted : Dictionary.name_length m (w - 2) ≡ nlen
    counted =
        name_length_counts m nlen (w - 2) (omega arith)
          (λ i lt e. good.1 (nlen - 1 - i) (omega arith) (
            sym (named (nlen - 1 - i) (omega arith))
            ∙ at m (w - 1 - nlen + (nlen - 1 - i)) (w - 2 - i) (omega arith)
            ∙ e))
          (head_end w name nlen flags latest mem room)

    test_true : (n : ℕ) (b : Bool) → b ≡ true → (if n == n then b else false) ≡ true
    test_true n b e = ground arith
