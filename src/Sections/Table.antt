-- ===== src/Sections/Table.antt =====
-- The generated table of include/hh/file_table.h meets what the registry relies on.
use hybrid_heaven_recomp.Prelude.{
  ℕ, zero, suc, ◌+◌, ◌^◌, ◌≡◌, refl, Bool, true, not, ◌&&◌, some, List, [], ◌∷◌, arith, ◌==◌, ltb,
}
use hybrid_heaven_recomp.Sections.FileTable.{CodeFile, code_files}
use hybrid_heaven_recomp.Sections.Registry.{file_at}
use hybrid_heaven_recomp.Sections.Registry.Load.{IsTable}

entry_ok : CodeFile → Bool
entry_ok f = not (f.vram == 0) && ltb 0 f.size && ltb (f.vram + f.size) (2 ^ 32)

all_ok : List CodeFile → Bool
unfolding entry_ok
all_ok [] = true
all_ok (f ∷ fs) = entry_ok f && all_ok fs

-- The synthetic ROM offsets follow one another without a gap.
abbrev contiguous_from : ℕ → List CodeFile → Bool
contiguous_from rom [] = true
contiguous_from rom (f ∷ fs) = f.rom == rom && contiguous_from (rom + f.size) fs

all_ok-at :
    (fs : List CodeFile) (i : ℕ) (f : CodeFile)
    → all_ok fs ≡ true
    → file_at fs i ≡ some f
    → entry_ok f ≡ true
unfolding all_ok file_at
all_ok-at [] i f h e = cc
all_ok-at (g ∷ fs) zero f h e = ground arith
all_ok-at (g ∷ fs) (suc i) f h e = all_ok-at fs i f (ground arith) e

table_ok : all_ok code_files ≡ true
unfolding all_ok code_files
table_ok = refl

pub contiguous : contiguous_from 0x0100_0000 code_files ≡ true
unfolding code_files
contiguous = refl

pub code_files-IsTable : IsTable code_files
unfolding entry_ok
code_files-IsTable = record {
  entry = λ i f e. let h : entry_ok f ≡ true = all_ok-at code_files i f table_ok e in ground arith;
}
