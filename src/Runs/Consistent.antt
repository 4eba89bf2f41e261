-- ===== src/Runs/Consistent.antt =====
-- The invariant of the table of runs, under any moves of the life cycle.
use o_rabbit.Prelude.{
  ◌≡◌, ◌≢◌, refl, sym, ◌∙◌, ap, Bool, true, false, ◌⊎◌, inl, inr, List, [], ◌∷◌, ◌++◌, Memᴰ, arith,
  ◌==◌, Bool-cases, ==_iff,
}
use o_rabbit.Table.{count_where, update_where}
use o_rabbit.Table.Laws.{mem-update_where, any_where-false}
use o_rabbit.Table.Keyed.{Each, after, mem-append_one, Each-update_where}
use o_rabbit.Table.Key.{PrimaryKey, PrimaryKey-append}
use o_rabbit.Store.{Run}
use o_rabbit.Store.Status.{RunStatus, run_is_open}
use o_rabbit.Runs.Admit.{same_open_dataset}
use o_rabbit.Runs.Life.{may_move, IsCommitted, IsMove, IsNew, RunPath, here, moves, inserts}

-- The invariant of the table of runs.
pub record RunsOk (runs : List Run) : Type 0 where
  pub key : PrimaryKey (λ (r : Run). r.id) runs
  pub committed : Each IsCommitted runs
  pub one_open :
      (a b : Run) → Memᴰ a runs → Memᴰ b runs → same_open_dataset a b ≡ true → a.id ≡ b.id

still_open : (a b : RunStatus) → may_move a b ≡ true → run_is_open b ≡ true → run_is_open a ≡ true
still_open RunStatus.planning b h o = refl
still_open _ b h o = ground arith

module _ (p : Run → Bool) (f : Run → Run) (good : (r : Run) → p r ≡ true → IsMove r (f r)) where
  -- `f` only matters where `p` holds.
  after_same_id : (r : Run) → (after p f r).id ≡ r.id
  after_same_id r = elim (Bool-cases (p r)) [ inl e ↦ rw e (good r e).same_id | inr e ↦ rw e refl ]

  after_same_open :
      (a b : Run)
      → same_open_dataset (after p f a) (after p f b) ≡ true
      → same_open_dataset a b ≡ true
  after_same_open a b h = by_cases (Bool-cases (p a)) (Bool-cases (p b))
    where
      by_cases :
          (p a ≡ true) ⊎ (p a ≡ false) → (p b ≡ true) ⊎ (p b ≡ false) → same_open_dataset a b ≡ true
      by_cases (inl ea) (inl eb) =
          let ma = good a ea in
          let mb = good b eb in
          ground (
            arith,
            ma.same_dataset,
            mb.same_dataset,
            still_open a.status (f a).status ma.edge,
            still_open b.status (f b).status mb.edge,
            h,
          )
      by_cases (inl ea) (inr eb) =
          let ma = good a ea in
          ground (arith, ma.same_dataset, still_open a.status (f a).status ma.edge, h)
      by_cases (inr ea) (inl eb) =
          let mb = good b eb in
          ground (arith, mb.same_dataset, still_open b.status (f b).status mb.edge, h)
      by_cases (inr ea) (inr eb) = ground arith

-- An UPDATE under which a test of the rows does not change counts as many.
count_where-after {ℓ} :
    {A : Type ℓ} (q p : A → Bool) (f : A → A) (xs : List A)
    → ((a : A) → q (after p f a) ≡ q a)
    → count_where q (update_where p f xs) ≡ count_where q xs
unfolding count_where update_where
count_where-after q p f [] same = refl
count_where-after q p f (x ∷ xs) same = ground (arith, same x, count_where-after q p f xs same)

same_open_dataset_comm : (a b : Run) → same_open_dataset a b ≡ true → same_open_dataset b a ≡ true
same_open_dataset_comm a b h = ground arith

RunsOk-moves :
    (p : Run → Bool) (f : Run → Run) (runs : List Run)
    → ((r : Run) → p r ≡ true → IsMove r (f r))
    → RunsOk runs
    → RunsOk (update_where p f runs)
RunsOk-moves p f runs good k = record {
  key = λ n.
      rw
        (count_where-after (λ r. r.id == n) p f runs
          (λ r. ap (λ i. i == n) (after_same_id p f good r)))
        (k.key n);
  committed = Each-update_where IsCommitted p f runs (λ r m h. moved r h) k.committed;
  one_open = λ a b ma mb h.
      let (x, mx, ex) = mem-update_where p f runs ma in
      let (y, my, ey) = mem-update_where p f runs mb in
      let h' : same_open_dataset (after p f x) (after p f y) ≡ true = rw (← ex, ← ey) h in
      ap (λ r. r.id) ex
      ∙ after_same_id p f good x
      ∙ k.one_open x y mx my (after_same_open p f good x y h')
      ∙ sym (after_same_id p f good y)
      ∙ sym (ap (λ r. r.id) ey);
}
  where
    moved : (r : Run) → IsCommitted r → IsCommitted (after p f r)
    moved r h = elim (Bool-cases (p r)) [ inl e ↦ rw e ((good r e).committed h) | inr e ↦ rw e h ]

new_apart :
    (r a : Run) (runs : List Run)
    → IsNew r runs
    → Memᴰ a runs
    → (a.id ≢ r.id) × (same_open_dataset r a ≡ false)
new_apart r a runs new m =
    let other = any_where-false (λ (x : Run). x.id == r.id) runs new.fresh m in
    ((λ e. cc (sym other ∙ (==_iff a.id r.id).1 e)), any_where-false _ runs new.alone m)

RunsOk-inserts : (r : Run) (runs : List Run) → IsNew r runs → RunsOk runs → RunsOk (runs ++ r ∷ [])
RunsOk-inserts r runs new k = record {
  key = PrimaryKey-append _ runs r (λ a m. (new_apart r a runs new m).0) k.key;
  committed = λ a m. elim (mem-append_one runs r m) [
    | inl old ↦ k.committed a old
    | inr e ↦
        rw e (record {
          commit = λ s. cc (sym new.planning ∙ s);
          phase = λ s. cc (sym new.planning ∙ s);
        })
  ];
  one_open = λ a b ma mb h. elim (mem-append_one runs r ma) [
    | inl oa ↦ elim (mem-append_one runs r mb) [
      | inl ob ↦ k.one_open a b oa ob h
      | inr eb ↦ clash a oa (same_open_dataset_comm a r (rw eb at h))
    ]
    | inr ea ↦ elim (mem-append_one runs r mb) [
      | inl ob ↦ clash b ob (rw ea at h)
      | inr eb ↦ ap (λ x. x.id) (ea ∙ sym eb)
    ]
  ];
}
  where
    clash : {P : Type 0} (a : Run) → Memᴰ a runs → same_open_dataset r a ≡ true → P
    clash a m h = cc (sym (new_apart r a runs new m).1 ∙ h)

-- Moves and insertions keep run ids unique, commits complete and datasets with one open run.
pub RunPath-RunsOk : {before runs : List Run} → RunsOk before → RunPath before runs → RunsOk runs
RunPath-RunsOk k here = k
RunPath-RunsOk k (moves {runs} p f h good) = RunsOk-moves p f runs good (RunPath-RunsOk k h)
RunPath-RunsOk k (inserts {runs} r h new) = RunsOk-inserts r runs new (RunPath-RunsOk k h)
