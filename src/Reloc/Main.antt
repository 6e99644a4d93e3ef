-- ===== src/Reloc/Main.antt =====
-- `main` of reloc/obj.cpp: from the bytes of out.txt to those of out.h and out.o.
use smolforth.Base.{Option, some, List, ℕ}
use smolforth.Reloc.Texts.{◌>>=◌}
use smolforth.Reloc.Tables.{Name, Target, ElfTypes}
use smolforth.Reloc.Lines.{read_tables}
use smolforth.Reloc.Names.{link}
use smolforth.Reloc.OutHeader.{out_header}
use smolforth.Reloc.Object.{ElfSymbols}
use smolforth.Reloc.Headers.{ElfFile}
use smolforth.Reloc.Layout.{save_obj}

unfoldable pub write_object :
    Target → ElfTypes → ElfSymbols → ElfFile → (Name → List ℕ) → List ℕ → Option (List ℕ × List ℕ)
unfolding read_tables link out_header save_obj
write_object target types symbols elf binary out_txt = do
  tables ← read_tables target types out_txt
  linked ← link tables
  out_o ← save_obj target symbols elf binary linked
  some (out_header tables.wordlist_names_export, out_o)
