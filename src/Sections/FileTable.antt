-- ===== src/Sections/FileTable.antt =====
-- include/hh/file_table.h: the game's code files, generated from its file table.
use hybrid_heaven_recomp.Prelude.{ℕ, List, [], ◌∷◌}

pub record CodeFile : Type 0 where
  pub id : ℕ
  pub rom : ℕ
  pub vram : ℕ
  pub size : ℕ

abbrev pub code_file : ℕ → ℕ → ℕ → ℕ → CodeFile
code_file id rom vram size = record { id = id; rom = rom; vram = vram; size = size }

unfoldable pub code_files : List CodeFile
code_files =
    code_file 8 0x01000000 0x80107830 0x089CF0
    ∷ code_file 9 0x01089CF0 0x801BF1A0 0x024E70
    ∷ code_file 10 0x010AEB60 0x801E4AA0 0x036510
    ∷ code_file 11 0x010E5070 0x8021B150 0x0255E0
    ∷ code_file 12 0x0110A650 0x802408F0 0x008C10
    ∷ code_file 13 0x01113260 0x802408F0 0x009280
    ∷ code_file 14 0x0111C4E0 0x802408F0 0x00A250
    ∷ code_file 15 0x01126730 0x802408F0 0x019980
    ∷ code_file 16 0x011400B0 0x802408F0 0x00EC00
    ∷ code_file 17 0x0114ECB0 0x802408F0 0x01D4B0
    ∷ code_file 18 0x0116C160 0x802408F0 0x01BDF0
    ∷ code_file 19 0x01187F50 0x802408F0 0x0021A0
    ∷ code_file 20 0x0118A0F0 0x802408F0 0x006370
    ∷ code_file 21 0x01190460 0x802408F0 0x016860
    ∷ code_file 22 0x011A6CC0 0x802408F0 0x011FB0
    ∷ code_file 24 0x011B8C70 0x801BF1A0 0x010B50
    ∷ code_file 25 0x011C97C0 0x801BF1A0 0x01E4D0
    ∷ code_file 26 0x011E7C90 0x801E1BE0 0x01B840
    ∷ code_file 27 0x012034D0 0x801E1BE0 0x013E80
    ∷ code_file 28 0x01217350 0x801E1BE0 0x027230
    ∷ code_file 29 0x0123E580 0x801E1BE0 0x004F60
    ∷ code_file 30 0x012434E0 0x801E1BE0 0x00ABA0
    ∷ code_file 31 0x0124E080 0x801E1BE0 0x001250
    ∷ code_file 32 0x0124F2D0 0x801E1BE0 0x009DE0
    ∷ code_file 33 0x012590B0 0x801E1BE0 0x012F10
    ∷ code_file 34 0x0126BFC0 0x801E1BE0 0x007B50
    ∷ code_file 35 0x01273B10 0x801E1BE0 0x007180
    ∷ code_file 36 0x0127AC90 0x801E1BE0 0x003620
    ∷ code_file 37 0x0127E2B0 0x801E1BE0 0x005230
    ∷ code_file 38 0x012834E0 0x801E1BE0 0x0056E0
    ∷ code_file 39 0x01288BC0 0x801E1BE0 0x0097F0
    ∷ code_file 40 0x012923B0 0x801E1BE0 0x006D30
    ∷ code_file 41 0x012990E0 0x801E1BE0 0x006D80
    ∷ code_file 42 0x0129FE60 0x801E1BE0 0x0034D0
    ∷ code_file 43 0x012A3330 0x801E1BE0 0x008630
    ∷ code_file 44 0x012AB960 0x801E1BE0 0x00C310
    ∷ code_file 45 0x012B7C70 0x801E1BE0 0x007130
    ∷ code_file 46 0x012BEDA0 0x801E1BE0 0x0097F0
    ∷ code_file 47 0x012C8590 0x801E1BE0 0x002270
    ∷ code_file 48 0x012CA800 0x801E1BE0 0x008A10
    ∷ code_file 49 0x012D3210 0x801E1BE0 0x005B80
    ∷ code_file 50 0x012D8D90 0x801E1BE0 0x0021B0
    ∷ code_file 51 0x012DAF40 0x801E1BE0 0x005D70
    ∷ code_file 52 0x012E0CB0 0x801E1BE0 0x003EA0
    ∷ code_file 53 0x012E4B50 0x801E1BE0 0x007DB0
    ∷ code_file 54 0x012EC900 0x802408F0 0x007F10
    ∷ code_file 55 0x012F4810 0x803837E0 0x00A5E0
    ∷ code_file 56 0x012FEDF0 0x803757E0 0x014700
    ∷ code_file 57 0x013134F0 0x80358820 0x0343A0
    ∷ code_file 58 0x01347890 0x8038CFC0 0x000D00
    ∷ code_file 59 0x01348590 0x8038CFC0 0x000A30
    ∷ code_file 60 0x01348FC0 0x8038CFC0 0x000900
    ∷ code_file 61 0x013498C0 0x8038CFC0 0x000A80
    ∷ code_file 62 0x0134A340 0x8038CFC0 0x000BD0
    ∷ code_file 63 0x0134AF10 0x8038CFC0 0x000AA0
    ∷ code_file 64 0x0134B9B0 0x8038CFC0 0x000CC0
    ∷ code_file 65 0x0134C670 0x8038CFC0 0x0007F0
    ∷ code_file 66 0x0134CE60 0x8038CFC0 0x000BE0
    ∷ code_file 67 0x0134DA40 0x8038CFC0 0x000D80
    ∷ code_file 68 0x0134E7C0 0x8038CFC0 0x000D90
    ∷ code_file 69 0x0134F550 0x8038CFC0 0x000B10
    ∷ code_file 70 0x01350060 0x8038CFC0 0x000D40
    ∷ code_file 71 0x01350DA0 0x8038CFC0 0x000AF0
    ∷ code_file 72 0x01351890 0x8038CFC0 0x000B00
    ∷ code_file 73 0x01352390 0x8038CFC0 0x000CF0
    ∷ code_file 74 0x01353080 0x8038CFC0 0x000C90
    ∷ code_file 75 0x01353D10 0x8038CFC0 0x000AD0
    ∷ code_file 76 0x013547E0 0x8038CFC0 0x000AF0
    ∷ code_file 77 0x013552D0 0x8038CFC0 0x000B60
    ∷ code_file 78 0x01355E30 0x8038CFC0 0x0008D0
    ∷ code_file 79 0x01356700 0x8038CFC0 0x000B50
    ∷ code_file 80 0x01357250 0x8038CFC0 0x0008A0
    ∷ code_file 81 0x01357AF0 0x8038CFC0 0x0008C0
    ∷ code_file 82 0x013583B0 0x8038CFC0 0x000A50
    ∷ code_file 83 0x01358E00 0x8038CFC0 0x0009B0
    ∷ code_file 84 0x013597B0 0x8038CFC0 0x000CD0
    ∷ code_file 85 0x0135A480 0x8038CFC0 0x000C10
    ∷ code_file 86 0x0135B090 0x8038CFC0 0x000CF0
    ∷ code_file 87 0x0135BD80 0x8038CFC0 0x000F00
    ∷ code_file 88 0x0135CC80 0x8038CFC0 0x000A50
    ∷ code_file 89 0x0135D6D0 0x8038CFC0 0x000E20
    ∷ code_file 90 0x0135E4F0 0x8038CFC0 0x000A40
    ∷ code_file 91 0x0135EF30 0x8038CFC0 0x000BA0
    ∷ code_file 92 0x0135FAD0 0x8038CFC0 0x000A50
    ∷ code_file 93 0x01360520 0x8038CFC0 0x001150
    ∷ code_file 94 0x01361670 0x8038CFC0 0x001160
    ∷ code_file 95 0x013627D0 0x8038CFC0 0x0011F0
    ∷ code_file 96 0x013639C0 0x8038CFC0 0x000C90
    ∷ code_file 97 0x01364650 0x8038CFC0 0x000750
    ∷ code_file 98 0x01364DA0 0x8038CFC0 0x000D50
    ∷ code_file 99 0x01365AF0 0x8038B7E0 0x001B60
    ∷ code_file 100 0x01367650 0x8038B7E0 0x002580
    ∷ []
