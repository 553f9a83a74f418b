-- ===== src/Diagnostics/Tally.antt =====
-- What the samples hold, told of the threads themselves: those of the process that gave their context, inside
-- the main module or outside.
use hybrid_heaven_recomp.Prelude.{
  ℕ, ◌+◌, ◌≡◌, ◌≢◌, ◌⊎◌, inl, inr, refl, ap, ==_iff, true, false, Option, none, some, List, [], ◌∷◌,
  ◌==◌, suc, arith, Bool-cases,
}
use hybrid_heaven_recomp.Diagnostics.Sampler.{
  Thread, Snapshot, is_owner, in_main_module, is_skipped,
}

abbrev pub threads_of : Option (List Thread) → List Thread
threads_of none = []
threads_of (some ts) = ts

-- The thread is another one of the process, and gives its context with this address.
pub record Gives (own pid : ℕ) (t : Thread) (rip : ℕ) : Type 0 where
  pub ours : t.owner_process ≡ pid
  pub another : t.id ≢ own
  pub opened : t.opens ≡ true
  pub suspended : t.suspends ≡ true
  pub sampled : (rsp : ℕ) × (t.context ≡ some (rip, rsp))

module _ (own pid main_module : ℕ) where
  -- Among some threads, so many that execute in the main module, and so many that do not.
  pub data Tally (owner : ℕ → Option ℕ) : List Thread → ℕ → ℕ → Type 0 where
    nothing : Tally owner [] 0 0
    inside :
        {t : Thread} {ts : List Thread} {e p rip : ℕ}
        → Gives own pid t rip
        → owner rip ≡ some main_module
        → Tally owner ts e p
        → Tally owner (t ∷ ts) (suc e) p
    outside :
        {t : Thread} {ts : List Thread} {e p rip : ℕ}
        → Gives own pid t rip
        → owner rip ≢ some main_module
        → Tally owner ts e p
        → Tally owner (t ∷ ts) e (suc p)
    unseen :
        {t : Thread} {ts : List Thread} {e p : ℕ}
        → ((rip : ℕ) → ¬ Gives own pid t rip)
        → Tally owner ts e p
        → Tally owner (t ∷ ts) e p

  -- The same over all samples; one without a list of threads has none.
  pub data Tallies : List Snapshot → ℕ → ℕ → Type 0 where
    start : Tallies [] 0 0
    sample :
        {w : Snapshot} {ws : List Snapshot} {e p e' p' : ℕ}
        → Tally w.owner (threads_of w.threads) e p
        → Tallies ws e' p'
        → Tallies (w ∷ ws) (e + e') (p + p')

  pub is_owner_lem :
      (o : Option ℕ)
      → ((is_owner main_module o ≡ true) × (o ≡ some main_module))
        ⊎ ((is_owner main_module o ≡ false) × (o ≢ some main_module))
  unfolding is_owner
  is_owner_lem none = inr (refl, λ e. cc)
  is_owner_lem (some m) = elim (Bool-cases (m == main_module)) [
    | inl e ↦ inl (e, ap some ((==_iff m main_module).0 e))
    | inr e ↦ inr (e, λ q. let r : m ≡ main_module = cc in ground (arith, e, r))
  ]

  pub in_main_module_lem :
      (w : Snapshot) (ip : ℕ)
      → ((in_main_module w main_module ip ≡ true) × (w.owner ip ≡ some main_module))
        ⊎ ((in_main_module w main_module ip ≡ false) × (w.owner ip ≢ some main_module))
  unfolding in_main_module
  in_main_module_lem w ip = is_owner_lem (w.owner ip)

  pub is_skipped_lem :
      (t : Thread)
      → ((is_skipped own pid main_module t ≡ true) × ((rip : ℕ) → ¬ Gives own pid t rip))
        ⊎ ((is_skipped own pid main_module t ≡ false)
            × ((rip rsp : ℕ) → t.context ≡ some (rip, rsp) → Gives own pid t rip))
  unfolding is_skipped
  is_skipped_lem t = elim (Bool-cases (t.owner_process == pid)) [
    | inr o ↦ inl (ground (arith, o), λ rip g. let h = g.ours in absurd (ground (arith, o, h)))
    | inl o ↦ elim (Bool-cases (t.id == own)) [
      | inl i ↦ inl (ground (arith, i), λ rip g. g.another ((==_iff t.id own).0 i))
      | inr i ↦ elim (Bool-cases t.opens) [
        | inr p ↦ inl (ground (arith, p), λ rip g. let h = g.opened in cc)
        | inl p ↦ elim (Bool-cases t.suspends) [
          | inr u ↦ inl (ground (arith, u), λ rip g. let h = g.suspended in cc)
          | inl u ↦ inr (
            ground (arith, o, i, p, u),
            λ rip rsp c. record {
              ours = (==_iff t.owner_process pid).0 o;
              another = λ e. ground (arith, i, e);
              opened = p;
              suspended = u;
              sampled = (rsp, c);
            },
          )
        ]
      ]
    ]
  ]
