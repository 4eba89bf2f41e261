-- ===== src/Runs/Refine.antt =====
-- Each operation on runs makes moves of the life cycle (internal/db/run_admission.go, store_runs.go,
-- run_failure.go, commit_reconciliation.go).
use o_rabbit.Prelude.{
  positive_or, ◌+◌, ℕ, ℤ, ◌≡◌, ◌≢◌, refl, sym, ◌∙◌, Bool, true, false, not, ◌&&◌, inl, inr, some,
  List, [], ◌∷◌, String, arith, ◌==◌, leb, is_positive, pos_part, Bool-cases, ◌-◌, Memᴰ, if_both,
}
use o_rabbit.Table.{find_where, any_where, select_where, update_where}
use o_rabbit.Table.Laws.{find_where-some}
use o_rabbit.Table.Key.{PrimaryKey, PrimaryKey-Keyed}
use o_rabbit.Store.{Run, Candidate, Db}
use o_rabbit.Store.Status.{RunStatus, run_is_planning}
use o_rabbit.Store.Tx.{Returns, Returns-if, Returns-guard, Returns-row}
use o_rabbit.Store.Events.{Sha, Event}
use o_rabbit.Runs.Admit.{
  create_run, same_open_dataset, capacity_waits, has_task, take_ids, sort_runs, is_waiting, planned,
  admitted, admit_run, admit_ids, admit_pending_runs, fail_abandoned, fail_abandoned_planning_runs,
  active_runs,
}
use o_rabbit.Runs.Cancel.{
  is_past_cancel, insert_candidate, insert_candidates, candidate_conflicts, candidates_of,
  dataset_of, is_unclaimed, create_canceled_object_candidates, cancel_run,
}
use o_rabbit.Runs.Life.{may_move, IsMove, RunPath, here, inserts, one_move, RunPath-trans}

-- A move that does not touch the commit, from a run that has not succeeded to one that has not.
pub plain-IsMove :
    (r r' : Run)
    → r'.id ≡ r.id
    → r'.dataset_key ≡ r.dataset_key
    → may_move r.status r'.status ≡ true
    → r'.commit_id ≡ r.commit_id
    → r'.commit_intent ≡ r.commit_intent
    → r'.status ≢ RunStatus.succeeded
    → IsMove r r'
plain-IsMove r r' i d e c t s = record {
  same_id = i;
  same_dataset = d;
  edge = e;
  same_commit = λ n. c;
  same_intent = λ n. t;
  committed = λ k. record { commit = λ q. absurd (s q); phase = λ q. absurd (s q) };
}

stays : (s : RunStatus) → may_move s s ≡ true
stays RunStatus.planning = refl
stays _ = refl

-- A change of columns that the life cycle does not read.
pub same-IsMove :
    (r r' : Run)
    → r'.id ≡ r.id
    → r'.dataset_key ≡ r.dataset_key
    → r'.status ≡ r.status
    → r'.commit_id ≡ r.commit_id
    → r'.commit_intent ≡ r.commit_intent
    → r'.commit_phase ≡ r.commit_phase
    → IsMove r r'
same-IsMove r r' i d e c t p = record {
  same_id = i;
  same_dataset = d;
  edge = rw e (stays r.status);
  same_commit = λ n. c;
  same_intent = λ n. t;
  committed = λ k. record {
    commit = λ q. rw c (k.commit (sym e ∙ q));
    phase = λ q. p ∙ k.phase (sym e ∙ q);
  };
}

pub admitted-IsMove : (id : ℕ) (r : Run) → planned id r ≡ true → IsMove r (admitted r)
admitted-IsMove id r h = plain-IsMove r _ refl refl (ground arith) refl refl (λ q. cc)

-- The runs after an operation come from those before it by moves.
abbrev pub Moves {ℓ} : {A : Type ℓ} → Db → A × Db → Type 0
Moves db o = RunPath db.runs o.1.runs

pub create_run-Moves :
    (r : Run) (db : Db) → r.status ≡ RunStatus.planning → Returns (Moves db) (create_run r db)
unfolding create_run
create_run-Moves r db s =
    Returns-guard _ (not (any_where (λ (x : Run). x.id == r.id) db.runs)) _ _ λ fresh.
      Returns-guard _ (not (any_where (same_open_dataset r) db.runs)) _ _ λ alone.
        inserts r here (record { planning = s; fresh = ground arith; alone = ground arith })

pub admit_run-Moves :
    (max_active : ℤ) (run_id : ℕ) (db : Db) → Returns (Moves db) (admit_run max_active run_id db)
unfolding admit_run
admit_run-Moves max_active run_id db = Returns-guard _ (not (run_id == 0)) _ _ λ _.
    Returns-if _ (is_positive max_active && leb (pos_part max_active) (active_runs db.runs)) _ _
      (λ _. here) (λ _. one_move _ _ db.runs (admitted-IsMove run_id))

admit_ids-Moves :
    (name : Sha) (now : ℕ) (ids : List ℕ) (n : ℕ) (db : Db)
    → Moves db (admit_ids name now ids (n, db))
unfolding admit_ids
admit_ids-Moves name now [] n db = here
admit_ids-Moves name now (id ∷ ids) n db =
    RunPath-trans (one_move _ _ db.runs (admitted-IsMove id)) (admit_ids-Moves name now ids _ _)

pub admit_pending_runs-Moves :
    (name : Sha) (max_active : ℤ) (now : ℕ) (seen db : Db)
    → Moves db (admit_pending_runs name max_active now seen db)
unfolding admit_pending_runs
admit_pending_runs-Moves name max_active now seen db =
    if_both (Moves db) (is_positive max_active && capacity_waits max_active seen) _ _
      (λ _.
        if_both (Moves db) (pos_part max_active - active_runs db.runs == 0) _ _ (λ _. here)
          (λ _.
            admit_ids-Moves name now
              (take_ids (pos_part max_active - active_runs db.runs)
                (sort_runs (select_where (is_waiting db) db.runs)))
              0 db))
      (λ _. here)

fail_abandoned-Moves :
    (name : Sha) (now : ℕ) (rs : List Run) (db : Db)
    → RunPath db.runs (fail_abandoned name now rs db).runs
unfolding fail_abandoned
fail_abandoned-Moves name now [] db = here
fail_abandoned-Moves name now (r ∷ rs) db =
    RunPath-trans
      (one_move _ _ db.runs (λ x h. plain-IsMove x _ refl refl (ground arith) refl refl (λ q. cc)))
      (fail_abandoned-Moves name now rs _)

pub fail_abandoned_planning_runs-Moves :
    (name : Sha) (now : ℕ) (db : Db) → Moves db (fail_abandoned_planning_runs name now db)
unfolding fail_abandoned_planning_runs
fail_abandoned_planning_runs-Moves name now db =
    fail_abandoned-Moves name now
      (select_where (λ (r : Run). run_is_planning r.status && not (has_task r.id db)) db.runs) db

-- Candidates touch only their own table and the events.
pub insert_candidates-keeps {ℓ} :
    {B : Type ℓ} (g : Db → B)
    → ((d : Db) (cs : List Candidate) (es : List Event)
        → g (record d { candidates = cs; events = es }) ≡ g d)
    → (sha name : Sha) (cs : List Candidate) (db : Db) → g (insert_candidates sha name cs db) ≡ g db
unfolding insert_candidates
insert_candidates-keeps g same sha name [] db = refl
insert_candidates-keeps g same sha name (c ∷ cs) db =
    insert_candidates-keeps g same sha name cs (insert_candidate sha name c db)
    ∙ if_both (λ d. g d ≡ g db) (any_where (candidate_conflicts c) db.candidates) _ _ (λ _. refl)
        (λ _. same db _ _)

pub create_candidates-keeps {ℓ} :
    {B : Type ℓ} (g : Db → B)
    → ((d : Db) (cs : List Candidate) (es : List Event)
        → g (record d { candidates = cs; events = es }) ≡ g d)
    → (sha name : Sha) (retention : ℤ) (run_id now : ℕ) (db : Db)
    → g (create_canceled_object_candidates sha name retention run_id now db) ≡ g db
unfolding create_canceled_object_candidates
create_candidates-keeps g same sha name retention run_id now db =
    insert_candidates-keeps g same sha name
      (candidates_of sha (dataset_of run_id db) now (now + positive_or retention 86400000000000)
        (select_where (is_unclaimed run_id db) db.uploads))
      db

-- UPDATEs by conditions that agree on the rows of the table are one.
update_where-cong {ℓ} :
    {A : Type ℓ} (p q : A → Bool) (f : A → A) (xs : List A)
    → ((a : A) → Memᴰ a xs → p a ≡ q a)
    → update_where p f xs ≡ update_where q f xs
unfolding update_where
update_where-cong p q f [] same = refl
update_where-cong p q f (x ∷ xs) same =
    ground
      (arith, same x (Memᴰ.head refl), update_where-cong p q f xs (λ a m. same a (Memᴰ.tail m)))

-- An UPDATE of the run with a given id, where the id is that of a run that is not past cancellation.
pub by_id-RunPath :
    (run_id : ℕ) (f : Run → Run) (r : Run) (runs : List Run)
    → PrimaryKey (λ (x : Run). x.id) runs
    → find_where (λ (x : Run). x.id == run_id) runs ≡ some r
    → is_past_cancel r.status ≡ false
    → ((x : Run) → is_past_cancel x.status ≡ false → IsMove x (f x))
    → RunPath runs (update_where (λ x. x.id == run_id) f runs)
by_id-RunPath run_id f r runs key found early good =
    let (m, e) = find_where-some _ runs found in
    rw
      (update_where-cong (λ x. x.id == run_id)
        (λ x. x.id == run_id && not (is_past_cancel x.status)) f runs
        (λ x mx. elim (Bool-cases (x.id == run_id)) [
          | inr n ↦ rw n refl
          | inl y ↦
              let same : x ≡ r = PrimaryKey-Keyed _ runs key x r mx m (ground arith) in
              rw same (ground arith)
        ]))
      (one_move _ _ runs (λ x h. good x (ground arith)))

pub cancel_run-Moves :
    (sha name : Sha) (retention : ℤ) (run_id : ℕ) (given : String) (now : ℕ) (db : Db)
    → PrimaryKey (λ (x : Run). x.id) db.runs
    → Returns (Moves db) (cancel_run sha name retention run_id given now db)
unfolding cancel_run
cancel_run-Moves sha name retention run_id given now db key =
    Returns-row _ (find_where (λ (r : Run). r.id == run_id) db.runs) _ _ λ r found.
      Returns-if _ (is_past_cancel r.status) _ _ (λ _. here)
        (λ early.
          rw
            (create_candidates-keeps (λ d. d.runs) (λ d cs es. refl) sha name retention run_id now
              _)
            (by_id-RunPath run_id _ r db.runs key found early
              (λ x h. plain-IsMove x _ refl refl (ground arith) refl refl (λ q. cc))))
