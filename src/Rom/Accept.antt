-- ===== src/Rom/Accept.antt =====
-- Which files are accepted: `read_header` and then `verify`.
use hybrid_heaven_recomp.Prelude.{
  ◌≡◌, ◌↔◌, refl, ap, Bool, true, false, not, ◌||◌, List, [], ◌∷◌, ◌++◌, ◌==◌, bytes_eq,
  bytes_eq→eq, if◌then◌else◌, length, arith, ==_iff,
}
use hybrid_heaven_recomp.Rom.Header.{RomFormat, unknown, z64, n64, v64, RomHeader}
use hybrid_heaven_recomp.Rom.Verify.{
  report, wrong_format, wrong_size, wrong_cartridge_id, wrong_region, wrong_revision, wrong_crc,
  target_cartridge_id, target_region, target_revision, target_size_bytes, target_crc1, target_crc2,
  Problem, is_z64, field_problems, verify,
}

-- The pinned dump, field by field.
pub record IsTarget (h : RomHeader) : Type 0 where
  pub big_endian : h.format ≡ z64
  pub whole : h.size_bytes ≡ target_size_bytes
  pub hybrid_heaven : h.cartridge_id ≡ target_cartridge_id
  pub usa : h.region ≡ target_region
  pub first : h.revision ≡ target_revision
  pub sum1 : h.crc1 ≡ target_crc1
  pub sum2 : h.crc2 ≡ target_crc2

is_z64→z64 : (f : RomFormat) → is_z64 f ≡ true → f ≡ z64
unfolding is_z64
is_z64→z64 unknown e = cc
is_z64→z64 z64 e = refl
is_z64→z64 n64 e = cc
is_z64→z64 v64 e = cc

nothing_reported :
    (b : Bool) (p : Problem) (ps : List Problem) → report b p ++ ps ≡ [] → (b ≡ false) × (ps ≡ [])
nothing_reported true p ps e = absurd (omega (arith, ap length e))
nothing_reported false p ps e = (refl, e)

unnegated : (b : Bool) → not b ≡ false → b ≡ true
unnegated true e = refl
unnegated false e = cc

unreported : (e : Bool) (t : Problem) → report e t ≡ [] → e ≡ false
unreported true t h = absurd (omega (arith, ap length h))
unreported false t h = refl

none_reported :
    (a b c d e : Bool) (p q r s t : Problem)
    → report (not a) p
        ++ (report (not b) q ++ (report (not c) r ++ (report (not d) s ++ report e t)))
      ≡ []
    → (a ≡ true) × (b ≡ true) × (c ≡ true) × (d ≡ true) × (e ≡ false)
none_reported a b c d e p q r s t h =
    let (na, h1) = nothing_reported (not a) p _ h in
    let (nb, h2) = nothing_reported (not b) q _ h1 in
    let (nc, h3) = nothing_reported (not c) r _ h2 in
    let (nd, h4) = nothing_reported (not d) s (report e t) h3 in
    (unnegated a na, unnegated b nb, unnegated c nc, unnegated d nd, unreported e t h4)

neither : (a b : Bool) → (not a || not b) ≡ false → (a ≡ true) × (b ≡ true)
neither true true e = (refl, refl)
neither true false e = cc
neither false b e = cc

field_problems-none :
    (h : RomHeader)
    → field_problems h ≡ []
    → (h.size_bytes ≡ target_size_bytes)
      × (h.cartridge_id ≡ target_cartridge_id)
      × (h.region ≡ target_region)
      × (h.revision ≡ target_revision)
      × (h.crc1 ≡ target_crc1)
      × (h.crc2 ≡ target_crc2)
unfolding field_problems
field_problems-none h e =
    let (size, cartridge, region, revision, crcs) =
      none_reported (h.size_bytes == target_size_bytes)
        (bytes_eq h.cartridge_id target_cartridge_id) (h.region == target_region)
        (h.revision == target_revision) (not (h.crc1 == target_crc1) || not (h.crc2 == target_crc2))
        (wrong_size h.size_bytes) (wrong_cartridge_id h.cartridge_id) (wrong_region h.region)
        (wrong_revision h.revision) (wrong_crc h.crc1 h.crc2) e in
    let (crc1, crc2) = neither (h.crc1 == target_crc1) (h.crc2 == target_crc2) crcs in
    (
      (==_iff h.size_bytes target_size_bytes).0 size,
      bytes_eq→eq h.cartridge_id target_cartridge_id cartridge,
      (==_iff h.region target_region).0 region,
      (==_iff h.revision target_revision).0 revision,
      (==_iff h.crc1 target_crc1).0 crc1,
      (==_iff h.crc2 target_crc2).0 crc2,
    )

field_problems-IsTarget : (h : RomHeader) → IsTarget h → field_problems h ≡ []
unfolding field_problems bytes_eq
field_problems-IsTarget h t = rw (t.whole, t.hybrid_heaven, t.usa, t.first, t.sum1, t.sum2) refl

verdict :
    (z : Bool) (f : RomFormat) (ps : List Problem)
    → let r : Bool × List Problem =
        if z then (elim ps [ [] ↦ true | p ∷ ps ↦ false ], ps) else (false, wrong_format f ∷ []) in
      ((r.0 ≡ true) ↔ ((z ≡ true) × (ps ≡ []))) × ((r.0 ≡ true) ↔ (r.1 ≡ []))
verdict true f [] = (((λ e. (refl, refl)), (λ e. refl)), ((λ e. refl), (λ e. refl)))
verdict true f (p ∷ ps) = (
  ((λ e. cc), (λ e. absurd (omega (arith, ap length e.1)))),
  ((λ e. cc), (λ e. absurd (omega (arith, ap length e)))),
)
verdict false f ps =
    (((λ e. cc), (λ e. e.0)), ((λ e. cc), (λ e. absurd (omega (arith, ap length e)))))

-- A dump is accepted when it has the pinned dump's format, size, cartridge id, region, revision and
-- CRCs; the name is not looked at. It is rejected with at least one problem otherwise.
pub verify-IsTarget :
    (h : RomHeader)
    → (((verify h).0 ≡ true) ↔ IsTarget h) × (((verify h).0 ≡ true) ↔ ((verify h).1 ≡ []))
unfolding verify
verify-IsTarget h =
    let v = verdict (is_z64 h.format) h.format (field_problems h) in
    (
      (
        λ e.
            let (z, none_found) = v.0.0 e in
            let (size, cartridge, region, revision, crc1, crc2) =
              field_problems-none h none_found in
            record {
              big_endian = is_z64→z64 h.format z;
              whole = size;
              hybrid_heaven = cartridge;
              usa = region;
              first = revision;
              sum1 = crc1;
              sum2 = crc2;
            },
        λ t. v.0.1 (unfold is_z64 in rw t.big_endian refl, field_problems-IsTarget h t),
      ),
      v.1,
    )
