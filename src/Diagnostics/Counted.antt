-- ===== src/Diagnostics/Counted.antt =====
-- Each sampled thread is counted once, as executing or as parked.
use hybrid_heaven_recomp.Prelude.{
  ℕ, ◌+◌, ◌-◌, ◌%◌, ◌^◌, ◌≡◌, ◌<◌, inl, inr, refl, sym, ◌∙◌, Option-cases, true, false, Option,
  none, some, List, [], ◌∷◌, ◌==◌, ltb, suc, length, if◌then◌else◌, arith, Bool-cases,
}
use mathlib.Core.Path.{subst}
use hybrid_heaven_recomp.Diagnostics.Sampler.{
  Thread, Snapshot, Counts, increment, Sampler, in_main_module, is_skipped, gather, count_ip,
  count_ips, count_sample, sample_threads, sample_once, sample_round, running_of, report_samples,
  start_sampler,
}
use hybrid_heaven_recomp.Diagnostics.Tally.{
  threads_of, Gives, Tally, nothing, inside, outside, unseen, Tallies, start, sample,
  in_main_module_lem, is_skipped_lem,
}

running_of-increment :
    (m : Counts) (key : ℕ) → running_of (increment m key) ≡ ((running_of m + 1) % 2 ^ 64)
unfolding running_of increment
running_of-increment [] key = refl
running_of-increment ((first, n) ∷ rest) key = elim (Bool-cases (key == first)) [
  | inl e ↦ rw e (omega arith)
  | inr e ↦ elim (Bool-cases (ltb key first)) [
    | inl e' ↦ rw (e, e') (omega arith)
    | inr e' ↦ rw (e, e') (rw (running_of-increment rest key) (omega arith))
  ]
]

running_of_bound : (m : Counts) → running_of m < 2 ^ 64
unfolding running_of
running_of_bound [] = omega arith
running_of_bound ((key, n) ∷ rest) = omega arith

module _ (own pid main_module : ℕ) where
  -- What a sampler has counted more than before.
  record Counted (e p : ℕ) (s t : Sampler) : Type 0 where
    inside_more : running_of t.executing ≡ (running_of s.executing + e) % 2 ^ 64
    outside_more : s.parked < 2 ^ 64 → t.parked ≡ (s.parked + p) % 2 ^ 64
    same_rounds : t.rounds ≡ s.rounds

  count_ip-inside :
      (w : Snapshot) (ip : ℕ) (s t : Sampler) (e p : ℕ)
      → in_main_module w main_module ip ≡ true
      → Counted e p (count_ip own pid main_module w ip s) t
      → Counted (suc e) p s t
  unfolding count_ip
  count_ip-inside w ip s t e p h c =
      let counted : Counted e p
          (record s { executing = increment s.executing ((ip + 2 ^ 64 - main_module) % 2 ^ 64) })
          t =
        subst
          (λ b.
            Counted e p
              (if b
                then record s {
                  executing = increment s.executing ((ip + 2 ^ 64 - main_module) % 2 ^ 64);
                }
                else record s { parked = (s.parked + 1) % 2 ^ 64 })
              t)
          h c in
      record {
        inside_more = omega (
          arith,
          counted.inside_more,
          running_of-increment s.executing ((ip + 2 ^ 64 - main_module) % 2 ^ 64),
        );
        outside_more = λ l. counted.outside_more l;
        same_rounds = counted.same_rounds;
      }

  count_ip-outside :
      (w : Snapshot) (ip : ℕ) (s t : Sampler) (e p : ℕ)
      → in_main_module w main_module ip ≡ false
      → Counted e p (count_ip own pid main_module w ip s) t
      → Counted e (suc p) s t
  unfolding count_ip
  count_ip-outside w ip s t e p h c =
      let counted : Counted e p (record s { parked = (s.parked + 1) % 2 ^ 64 }) t =
        subst
          (λ b.
            Counted e p
              (if b
                then record s {
                  executing = increment s.executing ((ip + 2 ^ 64 - main_module) % 2 ^ 64);
                }
                else record s { parked = (s.parked + 1) % 2 ^ 64 })
              t)
          h c in
      record {
        inside_more = counted.inside_more;
        outside_more = λ l. omega (arith, counted.outside_more (omega arith));
        same_rounds = counted.same_rounds;
      }

  -- The addresses that a thread adds to those of the threads after it.
  gather-skipped :
      (w : Snapshot) (t : Thread) (ts : List Thread)
      → is_skipped own pid main_module t ≡ true
      → (gather own pid main_module w (t ∷ ts)).0 ≡ (gather own pid main_module w ts).0
  unfolding gather
  gather-skipped w t ts h = rw h refl

  gather-blind :
      (w : Snapshot) (t : Thread) (ts : List Thread)
      → t.context ≡ none
      → (gather own pid main_module w (t ∷ ts)).0 ≡ (gather own pid main_module w ts).0
  unfolding gather
  gather-blind w t ts h = elim (Bool-cases (is_skipped own pid main_module t)) [
    | inl e ↦ rw e refl
    | inr e ↦ rw (e, h) refl
  ]

  gather-sampled :
      (w : Snapshot) (t : Thread) (ts : List Thread) (rip rsp : ℕ)
      → is_skipped own pid main_module t ≡ false
      → t.context ≡ some (rip, rsp)
      → (gather own pid main_module w (t ∷ ts)).0 ≡ rip ∷ (gather own pid main_module w ts).0
  unfolding gather
  gather-sampled w t ts rip rsp h c = rw (h, c) refl

  -- What these threads are, and what is counted of these addresses.
  abbrev Tallied : Snapshot → List Thread → Sampler → List ℕ → Type 0
  Tallied w ts s ips =
      (e : ℕ) × (p : ℕ) × Tally own pid main_module w.owner ts e p
      × Counted e p s (count_ips own pid main_module w ips s)

  count_first :
      (w : Snapshot) (t : Thread) (ts : List Thread) (s : Sampler) (rip : ℕ) (ips : List ℕ)
      → Gives own pid t rip
      → Tallied w ts (count_ip own pid main_module w rip s) ips
      → Tallied w (t ∷ ts) s (rip ∷ ips)
  unfolding count_ips
  count_first w t ts s rip ips g (e, p, tally, counted) =
      elim (in_main_module_lem own pid main_module w rip) [
        | inl (h, o) ↦ (suc e, p, inside g o tally, count_ip-inside w rip s _ e p h counted)
        | inr (h, o) ↦ (e, suc p, outside g o tally, count_ip-outside w rip s _ e p h counted)
      ]

  unseen_first :
      (w : Snapshot) (t : Thread) (ts : List Thread) (s : Sampler) (ips : List ℕ)
      → ((rip : ℕ) → ¬ Gives own pid t rip)
      → Tallied w ts s ips
      → Tallied w (t ∷ ts) s ips
  unseen_first w t ts s ips g (e, p, tally, counted) = (e, p, unseen g tally, counted)

  nothing_more : (s : Sampler) → Counted 0 0 s s
  nothing_more s = record {
    inside_more = omega (arith, running_of_bound s.executing);
    outside_more = λ l. omega arith;
    same_rounds = refl;
  }

  gather-Tallied :
      (w : Snapshot) (ts : List Thread) (s : Sampler)
      → Tallied w ts s (gather own pid main_module w ts).0
  gather-Tallied w [] s = unfold gather count_ips in (0, 0, nothing, nothing_more s)
  gather-Tallied w (t ∷ ts) s =
      let ips = (gather own pid main_module w ts).0 in
      let rest = gather-Tallied w ts s in
      elim (is_skipped_lem own pid main_module t) [
        | inl (h, g) ↦
            subst (Tallied w (t ∷ ts) s) (sym (gather-skipped w t ts h))
              (unseen_first w t ts s ips g rest)
        | inr (h, g) ↦ elim (Option-cases t.context) [
          | inl c ↦
              subst (Tallied w (t ∷ ts) s) (sym (gather-blind w t ts c))
                (unseen_first w t ts s ips (λ rip v. let d = v.sampled.1 in cc) rest)
          | inr ((rip, rsp), c) ↦
              subst (Tallied w (t ∷ ts) s) (sym (gather-sampled w t ts rip rsp h c)) (
                count_first w t ts s rip ips (g rip rsp c)
                  (gather-Tallied w ts (count_ip own pid main_module w rip s)))
        ]
      ]

  sample_threads-Tallied :
      (w : Snapshot) (threads : Option (List Thread)) (s : Sampler)
      → (e : ℕ) × (p : ℕ) × Tally own pid main_module w.owner (threads_of threads) e p
        × Counted e p s (sample_threads own pid main_module w threads s)
  unfolding sample_threads count_sample
  sample_threads-Tallied w none s = (0, 0, nothing, nothing_more s)
  sample_threads-Tallied w (some ts) s =
      let (e, p, tally, counted) = gather-Tallied w ts s in
      (
        e,
        p,
        tally,
        record {
          inside_more = counted.inside_more;
          outside_more = counted.outside_more;
          same_rounds = counted.same_rounds;
        },
      )

  unfoldable pub sample_rounds : List Snapshot → Sampler → Sampler
  sample_rounds [] s = s
  sample_rounds (w ∷ ws) s = sample_rounds ws (sample_round own pid main_module w s)

  sample_rounds-Tallies :
      (ws : List Snapshot) (s : Sampler)
      → s.parked < 2 ^ 64
      → s.rounds < 2 ^ 64
      → let t = sample_rounds ws s in
        (e : ℕ) × (p : ℕ) × Tallies own pid main_module ws e p
        × (running_of t.executing ≡ (running_of s.executing + e) % 2 ^ 64)
        × (t.parked ≡ (s.parked + p) % 2 ^ 64)
        × (t.rounds ≡ (s.rounds + length ws) % 2 ^ 64)
  unfolding sample_rounds sample_round sample_once
  sample_rounds-Tallies [] s l n =
      (0, 0, start, omega (arith, running_of_bound s.executing), omega arith, omega arith)
  sample_rounds-Tallies (w ∷ ws) s l n =
      let (e, p, tally, counted) = sample_threads-Tallied w w.threads s in
      let outside_now = counted.outside_more l in
      let (e', p', tallies, i, o, r) =
        sample_rounds-Tallies ws (sample_round own pid main_module w s) (omega arith)
          (omega arith) in
      (
        e + e',
        p + p',
        sample tally tallies,
        omega (arith, i, counted.inside_more),
        omega (arith, o),
        omega (arith, r, counted.same_rounds),
      )

  -- However the system answers: a report counts, since the start of the sampler, its rounds, and of the other
  -- threads of the process that could be opened and suspended and gave their context, each in every sample,
  -- those that executed in the main module as running and the rest as parked; all in 64 bits.
  pub report_samples-Tallies :
      (ws : List Snapshot)
      → let r = report_samples (sample_rounds ws start_sampler) in
        (e : ℕ) × (p : ℕ) × Tallies own pid main_module ws e p
        × (r.running ≡ e % 2 ^ 64)
        × (r.parked ≡ p % 2 ^ 64)
        × (r.rounds ≡ length ws % 2 ^ 64)
  unfolding report_samples start_sampler running_of
  report_samples-Tallies ws =
      let (e, p, tallies, i, o, r) =
        sample_rounds-Tallies ws start_sampler (omega arith) (omega arith) in
      (e, p, tallies, i ∙ omega arith, o ∙ omega arith, r ∙ omega arith)
