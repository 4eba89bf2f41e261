-- ===== src/Lease/Candidates.antt =====
-- What the assignment query returns (internal/db/attempts.go, AssignNextPendingTaskInPool): an
-- eligible row of the join, no other eligible row before it, and a row whenever there is one.
use o_rabbit.Prelude.{
  ◌≡◌, refl, ◌⊎◌, Bool, true, false, Option, none, some, List, [], ◌∷◌, Memᴰ, arith, Bool-cases,
  inl, inr,
}
use o_rabbit.Store.{Task, Db}
use o_rabbit.Lease.Select.{Candidate, join_row, precedes, consider, next_candidate}

-- No row of `ts` that joins and passes the test stands before `best`.
abbrev pub IsFirst : (Candidate → Bool) → Db → List Task → Candidate → Type 0
IsFirst test db ts best =
    (t : Task) (c : Candidate)
    → Memᴰ t ts
    → join_row db t ≡ some c
    → test c ≡ true
    → precedes c best ≡ false

-- A row that the query returns joins a task, and passes the test.
pub record Chosen (test : Candidate → Bool) (db : Db) (ts : List Task) (best : Candidate)
    : Type 0 where
  pub task : Task
  pub mem : Memᴰ task ts
  pub joined : join_row db task ≡ some best
  pub passed : test best ≡ true

-- One step of the query keeps the best row so far, or takes the row that it reads.
consider-eq-some :
    (test : Candidate → Bool) (j rest : Option Candidate) {best : Candidate}
    → consider test j rest ≡ some best
    → (rest ≡ some best) ⊎ ((j ≡ some best) × (test best ≡ true))
consider-eq-some test none rest h = inl h
consider-eq-some test (some c) none {best} h = elim (Bool-cases (test c)) [
  | inl e ↦ let q : some c ≡ some best = rw e at h in let r : c ≡ best = cc in inr (q, rw (← r) e)
  | inr e ↦ inl (rw e at h)
]
consider-eq-some test (some c) (some d) {best} h = elim (Bool-cases (test c)) [
  | inr e ↦ inl (rw e at h)
  | inl e ↦ elim (Bool-cases (precedes d c)) [
    | inl l ↦ inl (rw (e, l) at h)
    | inr l ↦
        let q : some c ≡ some best = rw (e, l) at h in let r : c ≡ best = cc in inr (q, rw (← r) e)
  ]
]

-- The order is one of rows: asymmetric, and what is not after the one is not after the other.
precedes_asymm : (a b : Candidate) → precedes a b ≡ true → precedes b a ≡ false
unfolding precedes
precedes_asymm a b h = ground arith

precedes_trans :
    (a b c : Candidate) → precedes a b ≡ false → precedes b c ≡ false → precedes a c ≡ false
unfolding precedes
precedes_trans a b c h k = ground arith

module _ (test : Candidate → Bool) (db : Db) where
  pub next_candidate-Chosen :
      (ts : List Task) {best : Candidate}
      → next_candidate test db ts ≡ some best
      → Chosen test db ts best
  unfolding next_candidate
  next_candidate-Chosen [] h = cc
  next_candidate-Chosen (t ∷ ts) {best} h =
      elim (consider-eq-some test (join_row db t) (next_candidate test db ts) h) [
        | inl e ↦
            let c = next_candidate-Chosen ts e in
            record { task = c.task; mem = Memᴰ.tail c.mem; joined = c.joined; passed = c.passed }
        | inr e ↦ record { task = t; mem = Memᴰ.head refl; joined = e.0; passed = e.1 }
      ]

  -- If the query returns no row, no row that joins passes the test.
  pub next_candidate-none :
      (ts : List Task)
      → next_candidate test db ts ≡ none
      → (t : Task) (c : Candidate) → Memᴰ t ts
      → join_row db t ≡ some c
      → test c ≡ false
  unfolding next_candidate
  next_candidate-none [] h u d m j = elim m [ ]
  next_candidate-none (t ∷ ts) h u d (Memᴰ.head e) j =
      let k : join_row db t ≡ some d = rw (← e) j in
      none_tests (next_candidate test db ts) d (rw k at h)
    where
      none_tests :
          (rest : Option Candidate) (d : Candidate)
          → consider test (some d) rest ≡ none
          → test d ≡ false
      none_tests rest d q = ground arith
  next_candidate-none (t ∷ ts) h u d (Memᴰ.tail m) j =
      next_candidate-none ts (none_before (join_row db t) (next_candidate test db ts) h) u d m j
    where
      none_before : (j rest : Option Candidate) → consider test j rest ≡ none → rest ≡ none
      none_before none rest q = q
      none_before (some c) rest q = ground arith

  -- The row that the query returns is one that no other row stands before.
  pub next_candidate-IsFirst :
      (ts : List Task) {best : Candidate}
      → next_candidate test db ts ≡ some best
      → IsFirst test db ts best
  unfolding next_candidate
  next_candidate-IsFirst [] h u d m j p = elim m [ ]
  next_candidate-IsFirst (t ∷ ts) {best} h u d (Memᴰ.head e) j p =
      let k : join_row db t ≡ some d = rw (← e) j in at_head (next_candidate test db ts) (rw k at h)
    where
      at_head :
          (rest : Option Candidate)
          → consider test (some d) rest ≡ some best
          → precedes d best ≡ false
      at_head none q =
          let r : d ≡ best = ground arith in rw (← r) (ground (arith, precedes_asymm d d))
      at_head (some b) q = ground (arith, precedes_asymm b d, precedes_asymm d d)
  next_candidate-IsFirst (t ∷ ts) {best} h u d (Memᴰ.tail m) j p =
      further (join_row db t) (next_candidate test db ts) (λ q. next_candidate-none ts q u d m j)
        (λ b q. next_candidate-IsFirst ts q u d m j p) h
    where
      further :
          (o rest : Option Candidate)
          → (rest ≡ none → test d ≡ false)
          → ((b : Candidate) → rest ≡ some b → precedes d b ≡ false)
          → consider test o rest ≡ some best
          → precedes d best ≡ false
      further o none empty ih q = cc (empty refl)
      further none (some b) empty ih q = ground (arith, ih b)
      further (some c) (some b) empty ih q = ground (arith, ih b refl, precedes_trans d b c)
