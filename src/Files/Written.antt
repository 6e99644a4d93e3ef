-- ===== src/Files/Written.antt =====
-- The loop of WRITE-FILE, over a `write` that makes progress.
use smolforth.Base.{
  ℕ, zero, suc, ◌+◌, ◌-◌, ◌≤◌, ◌<◌, ◌≡◌, ◌⊎◌, refl, arith, ◌∙◌, ap, inl, inr, none, some, Bool,
  true, false, Option-cases,
}
use smolforth.Memory.{Mem, get_byte}
use smolforth.Files
use native.Mathlib.Decide.{dec_lt}

-- Of each descriptor of the system: the bytes of its file by their positions, and the file offset.
module _ {Os : Type 0} (write : Files.WriteCall Os) (byte_at : ℕ → Os → ℕ → ℕ)
    (offset : ℕ → Os → ℕ) where
  -- Between two states of the system, the bytes from `addr` on were written over those that stood at
  -- the offset, which is behind them now, and no other byte of the file changed.
  abbrev pub Wrote : ℕ → ℕ → Mem → ℕ → Os → Os → Type 0
  Wrote fid u mem addr os os' =
      (offset fid os' ≡ offset fid os + u)
      × ((i : ℕ) → i < u → byte_at fid os' (offset fid os + i) ≡ get_byte mem (addr + i))
      × ((i : ℕ)
          → (i < offset fid os) ⊎ (offset fid os + u ≤ i)
          → byte_at fid os' i ≡ byte_at fid os i)

  -- What the manual of `write` says of a file that is not opened for appending: the answer is -1, or
  -- it is the number of bytes taken, from one to all of them, which are written at the offset.
  abbrev pub Progresses : Type 0
  Progresses =
      (fid u : ℕ) (mem : Mem) (addr : ℕ) (os : Os) (r : ℕ)
      → 0 < u
      → (write fid (Files.bytes_at mem addr u) os).0 ≡ some r
      → (0 < r) × (r ≤ u) × Wrote fid r mem addr os (write fid (Files.bytes_at mem addr u) os).1

  nothing_written : (fid : ℕ) (mem : Mem) (addr : ℕ) (os : Os) → Wrote fid 0 mem addr os os
  nothing_written fid mem addr os = (omega arith, λ i lt. absurd (omega arith), λ i o. refl)

  -- Bytes written behind those before them.
  Wrote-both :
      (fid r v u : ℕ) (mem : Mem) (addr : ℕ) (os os1 os2 : Os)
      → r + v ≡ u
      → Wrote fid r mem addr os os1
      → Wrote fid v mem (addr + r) os1 os2
      → Wrote fid u mem addr os os2
  Wrote-both fid r v u mem addr os os1 os2 e first second = (
    omega (arith, first.0, second.0),
    λ i lt. elim (dec_lt i r) [
      | yes below ↦ second.2 (offset fid os + i) (inl (omega (arith, first.0))) ∙ first.1 i below
      | no above ↦
          ap (byte_at fid os2) (omega (arith, first.0))
          ∙ second.1 (i - r) (omega arith)
          ∙ ap (get_byte mem) (omega arith)
    ],
    λ i o. second.2 i (ground (arith, first.0)) ∙ first.2 i (ground arith),
  )

  loop_done :
      (fid fuel : ℕ) (mem : Mem) (addr : ℕ) (os : Os)
      → Files.write_loop write fid fuel mem addr zero os ≡ some (true, os)
  unfolding Files.write_loop
  loop_done fid zero mem addr os = refl
  loop_done fid (suc fuel) mem addr os = refl

  loop_stops :
      (fid fuel u : ℕ) (mem : Mem) (addr : ℕ) (os : Os)
      → (write fid (Files.bytes_at mem addr (suc u)) os).0 ≡ none
      → Files.write_loop write fid (suc fuel) mem addr (suc u) os
        ≡ some (false, (write fid (Files.bytes_at mem addr (suc u)) os).1)
  unfolding Files.write_loop
  loop_stops fid fuel u mem addr os e = rw (Files.write_loop, e) refl

  loop_goes_on :
      (fid fuel u : ℕ) (mem : Mem) (addr : ℕ) (os : Os) (r : ℕ)
      → (write fid (Files.bytes_at mem addr (suc u)) os).0 ≡ some r
      → Files.write_loop write fid (suc fuel) mem addr (suc u) os
        ≡ Files.write_loop write fid fuel mem
            (addr + r)
            (suc u - r)
            (write fid (Files.bytes_at mem addr (suc u)) os).1
  unfolding Files.write_loop
  loop_goes_on fid fuel u mem addr os r e = rw (Files.write_loop, e) refl

  -- The loop of WRITE-FILE, over a `write` that writes at the file offset and takes at least one byte
  -- whenever it does not fail, always ends, as fuel for as many rounds as there are bytes is enough.
  -- If it ends without an error, all the bytes from the address given stand in the file from the old
  -- offset on, in order, the offset is behind them, and no other byte of the file has changed.
  pub write_loop-Wrote :
      Progresses
      → (fid fuel u : ℕ) (mem : Mem) (addr : ℕ) (os : Os) → u ≤ fuel
      → (all : Bool) × (os' : Os) × (Files.write_loop write fid fuel mem addr u os
          ≡ some (all, os'))
        × (all ≡ true → Wrote fid u mem addr os os')
  write_loop-Wrote p fid fuel zero mem addr os enough =
      (true, os, loop_done fid fuel mem addr os, λ e. nothing_written fid mem addr os)
  write_loop-Wrote p fid zero (suc u) mem addr os enough = absurd (omega arith)
  write_loop-Wrote p fid (suc fuel) (suc u) mem addr os enough =
      elim (Option-cases (write fid (Files.bytes_at mem addr (suc u)) os).0) [
        | inl e ↦ (
          false,
          (write fid (Files.bytes_at mem addr (suc u)) os).1,
          loop_stops fid fuel u mem addr os e,
          λ q. ground arith,
        )
        | inr (r, e) ↦
            let call = write fid (Files.bytes_at mem addr (suc u)) os in
            let step = p fid (suc u) mem addr os r (omega arith) e in
            let rest =
              write_loop-Wrote p fid fuel (suc u - r) mem (addr + r) call.1
                (omega (arith, step.0)) in
            (
              rest.0,
              rest.1,
              loop_goes_on fid fuel u mem addr os r e ∙ rest.2,
              λ q.
                  Wrote-both fid r (suc u - r) (suc u) mem addr os call.1 rest.1
                    (omega (arith, step.1)) step.2 (rest.3 q),
            )
      ]
