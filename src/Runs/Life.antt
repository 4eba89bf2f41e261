-- ===== src/Runs/Life.antt =====
-- The life cycle of a run as an abstract machine: which statuses follow which, what a move keeps, and
-- what any number of moves keeps.
use o_rabbit.Prelude.{
  ◌≡◌, ◌≢◌, refl, ◌∙◌, Bool, true, false, inl, inr, List, [], ◌∷◌, ◌++◌, Memᴰ, arith, ◌==◌,
  Bool-cases,
}
use o_rabbit.Table.{any_where, update_where}
use o_rabbit.Table.Laws.{update_where-mem}
use o_rabbit.Table.Keyed.{after, mem-append_left}
use o_rabbit.Store.{Run}
use o_rabbit.Store.Status.{RunStatus, CommitPhase}
use o_rabbit.Runs.Admit.{same_open_dataset}

-- The edges of the life cycle, and staying.
abbrev pub may_move : RunStatus → RunStatus → Bool
may_move RunStatus.planning RunStatus.planning = true
may_move RunStatus.planning RunStatus.running = true
may_move RunStatus.planning RunStatus.failed = true
may_move RunStatus.planning RunStatus.canceled = true
may_move RunStatus.running RunStatus.running = true
may_move RunStatus.running RunStatus.committing = true
may_move RunStatus.running RunStatus.failed = true
may_move RunStatus.running RunStatus.canceled = true
may_move RunStatus.committing RunStatus.committing = true
may_move RunStatus.committing RunStatus.succeeded = true
may_move RunStatus.committing RunStatus.failed = true
may_move RunStatus.succeeded RunStatus.succeeded = true
may_move RunStatus.failed RunStatus.failed = true
may_move RunStatus.canceled RunStatus.canceled = true
may_move _ _ = false

-- What one or more moves lead to.
abbrev pub may_become : RunStatus → RunStatus → Bool
may_become RunStatus.planning s = true
may_become RunStatus.running RunStatus.planning = false
may_become RunStatus.running s = true
may_become RunStatus.committing RunStatus.committing = true
may_become RunStatus.committing RunStatus.succeeded = true
may_become RunStatus.committing RunStatus.failed = true
may_become RunStatus.committing s = false
may_become RunStatus.succeeded RunStatus.succeeded = true
may_become RunStatus.succeeded s = false
may_become RunStatus.failed RunStatus.failed = true
may_become RunStatus.failed s = false
may_become RunStatus.canceled RunStatus.canceled = true
may_become RunStatus.canceled s = false

-- A SUCCEEDED run has a commit, and its commit is complete.
pub record IsCommitted (r : Run) : Type 0 where
  pub commit : r.status ≡ RunStatus.succeeded → r.commit_id ≢ 0
  pub phase : r.status ≡ RunStatus.succeeded → r.commit_phase ≡ CommitPhase.complete

-- A move of one run: along an edge, and with its commit intent unchanged once it has one.
pub record IsMove (r r' : Run) : Type 0 where
  pub same_id : r'.id ≡ r.id
  pub same_dataset : r'.dataset_key ≡ r.dataset_key
  pub edge : may_move r.status r'.status ≡ true
  pub same_commit : r.commit_id ≢ 0 → r'.commit_id ≡ r.commit_id
  pub same_intent : r.commit_id ≢ 0 → r'.commit_intent ≡ r.commit_intent
  pub committed : IsCommitted r → IsCommitted r'

-- A new run: PLANNING, under a new id, of a dataset that has no open run.
pub record IsNew (r : Run) (runs : List Run) : Type 0 where
  pub planning : r.status ≡ RunStatus.planning
  pub fresh : any_where (λ (x : Run). x.id == r.id) runs ≡ false
  pub alone : any_where (same_open_dataset r) runs ≡ false

-- The table of runs after moves of its rows and insertions.
pub data RunPath (before : List Run) : List Run → Type 0 where
  here : RunPath before before
  moves :
      {runs : List Run} (p : Run → Bool) (f : Run → Run)
      → RunPath before runs
      → ((r : Run) → p r ≡ true → IsMove r (f r))
      → RunPath before (update_where p f runs)
  inserts :
      {runs : List Run} (r : Run)
      → RunPath before runs
      → IsNew r runs
      → RunPath before (runs ++ r ∷ [])

pub RunPath-trans : {a b c : List Run} → RunPath a b → RunPath b c → RunPath a c
RunPath-trans h here = h
RunPath-trans h (moves p f k good) = moves p f (RunPath-trans h k) good
RunPath-trans h (inserts r k new) = inserts r (RunPath-trans h k) new

-- One UPDATE of runs that moves the rows it selects.
pub one_move :
    (p : Run → Bool) (f : Run → Run) (runs : List Run)
    → ((r : Run) → p r ≡ true → IsMove r (f r))
    → RunPath runs (update_where p f runs)
one_move p f runs good = moves p f here good

-- What a run has become after moves.
pub record HasGrown (r r' : Run) : Type 0 where
  pub same_id : r'.id ≡ r.id
  pub life : may_become r.status r'.status ≡ true
  pub same_commit : r.commit_id ≢ 0 → r'.commit_id ≡ r.commit_id
  pub same_intent : r.commit_id ≢ 0 → r'.commit_intent ≡ r.commit_intent

may_become_refl : (s : RunStatus) → may_become s s ≡ true
may_become_refl RunStatus.planning = refl
may_become_refl _ = refl

may_become_trans :
    (a b c : RunStatus) → may_become a b ≡ true → may_move b c ≡ true → may_become a c ≡ true
may_become_trans RunStatus.planning b c h k = refl
may_become_trans RunStatus.running RunStatus.planning c h k = cc
may_become_trans RunStatus.running RunStatus.running c h k = ground arith
may_become_trans RunStatus.running RunStatus.committing c h k = ground arith
may_become_trans RunStatus.running _ c h k = ground arith
may_become_trans _ b c h k = ground arith

grown_by_move : (r s t : Run) → HasGrown r s → IsMove s t → HasGrown r t
grown_by_move r s t g m = record {
  same_id = m.same_id ∙ g.same_id;
  life = may_become_trans r.status s.status t.status g.life m.edge;
  same_commit = λ n. ground (arith, g.same_commit n, m.same_commit);
  same_intent = λ n. ground (arith, g.same_commit n, g.same_intent n, m.same_intent);
}

-- Every run is still there after moves and insertions, and has only grown.
pub RunPath-HasGrown :
    {before runs : List Run} (r : Run)
    → RunPath before runs
    → Memᴰ r before
    → (r' : Run) × Memᴰ r' runs × HasGrown r r'
RunPath-HasGrown r here m = (
  r,
  m,
  record {
    same_id = refl;
    life = may_become_refl r.status;
    same_commit = λ n. refl;
    same_intent = λ n. refl;
  },
)
RunPath-HasGrown r (moves {runs} p f k good) m =
    let (s, ms, g) = RunPath-HasGrown r k m in
    (after p f s, update_where-mem p f runs ms, moved s g)
  where
    moved : (s : Run) → HasGrown r s → HasGrown r (after p f s)
    moved s g = elim (Bool-cases (p s)) [
      | inl e ↦ rw e (grown_by_move r s (f s) g (good s e))
      | inr e ↦ rw e g
    ]
RunPath-HasGrown r (inserts {runs} x k new) m =
    let (s, ms, g) = RunPath-HasGrown r k m in (s, mem-append_left runs (x ∷ []) ms, g)
