-- ===== src/Wire/Frame/Block.antt =====
-- The reply to a transaction on the pak's storage.
use hybrid_heaven_recomp.Prelude.{
  ℕ, ◌+◌, ◌%◌, ◌≤◌, ◌<◌, ◌≡◌, refl, ◌⊎◌, Bool, true, false, ◌&&◌, List, get_or, length, replicate,
  ◌∙◌, arith, ◌==◌, if◌then◌else◌, lt→ltb, ne→==_false, pos,
}
use hybrid_heaven_recomp.Pak.Format.{block_size}
use hybrid_heaven_recomp.Pak.Store.{read_block, write_block, valid_block}
use hybrid_heaven_recomp.Pak.Store.Invariant.{
  IsValid, image, read_block-IsValid, write_block-IsValid,
}
use hybrid_heaven_recomp.Pak.Store.Blocks.{
  block, read_block-eq-block, block-write_block, length-block,
}
use hybrid_heaven_recomp.Wire.Memory.{Memory}
use hybrid_heaven_recomp.Wire.Crc.{data_crc}
use hybrid_heaven_recomp.Wire.Frame.{
  Si, load_bytes, store_bytes, frame_block, exchange, exchange_store, handle_pak_block,
  cmd_read_pak, cmd_write_pak,
}
use hybrid_heaven_recomp.Wire.Frame.Bytes.{
  load-store_bytes, load-store_bytes_out, load-store_ne, load-store_self, length-load_bytes,
  get_or-load_bytes,
}

valid : (port b : ℕ) → port < 4 → b < 0x400 → valid_block (pos port) (pos b) ≡ true
valid port b hp hb = ground (arith, lt→ltb port 4 hp, lt→ltb b 0x400 hb)

exchange_read :
    {Mem : Type 0} (rumble_on : Bool) (s : Si Mem) (port b : ℕ) (bytes : List ℕ)
    → port < 4
    → b < 0x400
    → exchange rumble_on false s port b bytes
      ≡ (record s { paks = (read_block s.paks (pos port) (pos b)).0 }, block s.paks port b)
unfolding exchange exchange_store
exchange_read rumble_on s port b bytes hp hb =
    let read = (read_block-eq-block s.paks (pos port) (pos b)).0 in
    rw (ne→==_false b 0x400 (omega arith), lt→ltb b 0x400 hb)
      (ground (arith, read, valid port b hp hb))

exchange_write :
    {Mem : Type 0} (rumble_on : Bool) (s : Si Mem) (port b : ℕ) (bytes : List ℕ)
    → b < 0x400
    → exchange rumble_on true s port b bytes
      ≡ (record s { paks = (write_block s.paks (pos port) (pos b) bytes).0 }, bytes)
unfolding exchange exchange_store
exchange_write rumble_on s port b bytes hb =
    rw (ne→==_false b 0x400 (omega arith), lt→ltb b 0x400 hb)

module _ (memory : Memory) where
  open memory use {Mem, load, store, load-lt, load-store}

  handle_read :
      (rumble_on : Bool) (s : Si Mem) (base port : ℕ)
      → port < 4
      → frame_block memory s.rdram base < 0x400
      → let out = block s.paks port (frame_block memory s.rdram base) in
        handle_pak_block memory rumble_on s base port cmd_read_pak ≡ record s {
          rdram = store (store_bytes memory s.rdram (base + 6) out) (base + 0x26) (data_crc out);
          paks = (read_block s.paks (pos port) (pos (frame_block memory s.rdram base))).0;
        }
  unfolding handle_pak_block
  handle_read rumble_on s base port hp hb = rw (
      exchange_read rumble_on s port (frame_block memory s.rdram base) (replicate block_size 0) hp
        hb)

  handle_write :
      (rumble_on : Bool) (s : Si Mem) (base port : ℕ)
      → frame_block memory s.rdram base < 0x400
      → let bytes = load_bytes memory s.rdram (base + 6) block_size in
        handle_pak_block memory rumble_on s base port cmd_write_pak ≡ record s {
          rdram = store s.rdram (base + 0x26) (data_crc bytes);
          paks = (write_block s.paks (pos port) (pos (frame_block memory s.rdram base)) bytes).0;
        }
  unfolding handle_pak_block
  handle_write rumble_on s base port hb = rw (
      exchange_write rumble_on s port (frame_block memory s.rdram base)
        (load_bytes memory s.rdram (base + 6) block_size) hb)

  -- The frame at `base` holds `out` and its CRC, and nothing else of RDRAM differs from `m`.
  pub record Holds (m m' : Mem) (base : ℕ) (out : List ℕ) : Type 0 where
    pub bytes : (i : ℕ) → i < block_size → load m' (base + 6 + i) ≡ get_or out i 0 % 256
    pub crc : load m' (base + 0x26) ≡ data_crc out % 256
    pub rest : (a : ℕ) → (a < base + 6) ⊎ (base + 0x27 ≤ a) → load m' a ≡ load m a

  store_bytes-Holds :
      (m : Mem) (base : ℕ) (out : List ℕ)
      → length out ≡ block_size
      → Holds m (store (store_bytes memory m (base + 6) out) (base + 0x26) (data_crc out)) base out
  store_bytes-Holds m base out l =
      let filled = store_bytes memory m (base + 6) out in
      let crc_at = base + 0x26 in
      record {
        bytes = λ i h.
            load-store_ne memory filled crc_at (data_crc out) (base + 6 + i) (omega arith)
            ∙ load-store_bytes memory m (base + 6) out i (omega arith);
        crc = load-store_self memory filled crc_at (data_crc out);
        rest = λ a h.
            load-store_ne memory filled crc_at (data_crc out) a (omega arith)
            ∙ load-store_bytes_out memory m (base + 6) out a (omega arith);
      }

  load_bytes-Holds :
      (m : Mem) (base : ℕ)
      → let bytes = load_bytes memory m (base + 6) block_size in
        Holds m (store m (base + 0x26) (data_crc bytes)) base bytes
  load_bytes-Holds m base =
      let bytes = load_bytes memory m (base + 6) block_size in
      record {
        bytes = λ i h.
            load-store_ne memory m (base + 0x26) (data_crc bytes) (base + 6 + i) (omega arith)
            ∙ byte (base + 6) i h;
        crc = load-store_self memory m (base + 0x26) (data_crc bytes);
        rest = λ a h. load-store_ne memory m (base + 0x26) (data_crc bytes) a (omega arith);
      }
    where
      byte :
          (at i : ℕ)
          → i < block_size
          → load m (at + i) ≡ get_or (load_bytes memory m at block_size) i 0 % 256
      byte at i h = omega (arith, get_or-load_bytes memory m at block_size i h, load-lt m (at + i))

  -- A read of a block of the pak's storage puts its 32 bytes and their CRC in the frame, touches
  -- nothing else of RDRAM, and changes what no port holds;
  -- the paks stay valid, and the motor and the identify register are left alone.
  pub handle_pak_block_read :
      (rumble_on : Bool) (s : Si Mem) (base port : ℕ)
      → IsValid s.paks
      → port < 4
      → frame_block memory s.rdram base < 0x400
      → let s' = handle_pak_block memory rumble_on s base port cmd_read_pak in
        Holds s.rdram s'.rdram base (block s.paks port (frame_block memory s.rdram base))
        × ((q : ℕ) → image s'.paks q ≡ image s.paks q)
        × IsValid s'.paks
        × (s'.rumble ≡ s.rumble)
        × (s'.detect_cell ≡ s.detect_cell)
  handle_pak_block_read rumble_on s base port v hp hb =
      rw (handle_read rumble_on s base port hp hb) (
        store_bytes-Holds s.rdram base (block s.paks port (frame_block memory s.rdram base))
            (length-block s.paks port (frame_block memory s.rdram base) v hb),
        (read_block-eq-block s.paks (pos port) (pos (frame_block memory s.rdram base))).1,
        read_block-IsValid s.paks (pos port) (pos (frame_block memory s.rdram base)) v,
        refl,
        refl,
      )

  -- A write of a block of the pak's storage puts the 32 bytes of the frame in that block and changes
  -- no other block of any port; of RDRAM only the frame's CRC changes, to that of the bytes;
  -- the paks stay valid, and the motor and the identify register are left alone.
  pub handle_pak_block_write :
      (rumble_on : Bool) (s : Si Mem) (base port : ℕ)
      → IsValid s.paks
      → port < 4
      → frame_block memory s.rdram base < 0x400
      → let s' = handle_pak_block memory rumble_on s base port cmd_write_pak in
        let bytes = load_bytes memory s.rdram (base + 6) block_size in
        Holds s.rdram s'.rdram base bytes
        × ((q c : ℕ)
            → block s'.paks q c ≡ (
                if port == q && frame_block memory s.rdram base == c
                then bytes
                else block s.paks q c))
        × IsValid s'.paks
        × (s'.rumble ≡ s.rumble)
        × (s'.detect_cell ≡ s.detect_cell)
  handle_pak_block_write rumble_on s base port v hp hb =
      let b = frame_block memory s.rdram base in
      rw (handle_write rumble_on s base port hb) (
        load_bytes-Holds s.rdram base,
        (block-write_block s.paks (pos port) (pos b)
              (load_bytes memory s.rdram (base + 6) block_size) v
              (length-load_bytes memory s.rdram (base + 6) block_size)).1
            (valid port b hp hb),
        write_block-IsValid s.paks (pos port) (pos b)
            (load_bytes memory s.rdram (base + 6) block_size) v,
        refl,
        refl,
      )
