-- ===== src/Runs/Exclusive.antt =====
-- The claim on a commit is exclusive (internal/db/commit_reconciliation.go).
use o_rabbit.Prelude.{
  ℕ, ◌+◌, ◌<◌, ap, ◌&&◌, ◌≡◌, ◌≢◌, refl, sym, ◌∙◌, Bool, true, false, some, Memᴰ, arith, ◌==◌,
  Bool-cases, inl, inr, ==_iff,
}
use o_rabbit.Table.{count_where, update_where}
use o_rabbit.Table.Laws.{
  count_where_zero, update_where-mem, update_where_uncounted, count_where_witness,
}
use o_rabbit.Table.Key.{PrimaryKey, PrimaryKey-Keyed, PrimaryKey-update_where}
use o_rabbit.Store.{Run, Db}
use o_rabbit.Store.Tx.{ok, if-eq-ok}
use o_rabbit.Runs.Claim.{
  claimable, claimed_run, claim_committing_run, holds_claim, renew_commit_claim,
  release_commit_claim,
}

-- A run is claimed under a token until a time.
pub record IsClaimed (run_id token until : ℕ) (db : Db) : Type 0 where
  pub key : PrimaryKey (λ (r : Run). r.id) db.runs
  pub holder : Run
  pub mem : Memᴰ holder db.runs
  pub same_id : holder.id ≡ run_id
  pub same_token : holder.commit_claim_token ≡ token
  pub expires : holder.commit_claim_expires_at ≡ some until

-- What others do about the claim: they claim and renew at times before the deadline, and release with
-- tokens of their own.
pub data Rival (run_id token until : ℕ) (db db' : Db) : Type 0 where
  claims :
      (id other now lease : ℕ) (b : Bool)
      → now < until
      → claim_committing_run id other now lease db ≡ (b, db')
      → Rival run_id token until db db'
  renews :
      (id other now lease : ℕ)
      → other ≢ token
      → renew_commit_claim id other now lease db ≡ ok (tt, db')
      → Rival run_id token until db db'
  releases :
      (id other : ℕ)
      → other ≢ token
      → release_commit_claim id other db ≡ db'
      → Rival run_id token until db db'

pub data Rivals (run_id token until : ℕ) (db : Db) : Db → Type 0 where
  here : Rivals run_id token until db db
  next :
      {db' db'' : Db}
      → Rivals run_id token until db db'
      → Rival run_id token until db' db''
      → Rivals run_id token until db db''

-- An UPDATE that does not select the holder leaves the claim.
untouched :
    (run_id token until : ℕ) (db db' : Db) (p : Run → Bool) (f : Run → Run)
    → ((r : Run) → (f r).id ≡ r.id)
    → db'.runs ≡ update_where p f db.runs
    → (c : IsClaimed run_id token until db) → p c.holder ≡ false
    → IsClaimed run_id token until db'
untouched run_id token until db db' p f same e c out = record {
  key = rw e (PrimaryKey-update_where _ p f db.runs same c.key);
  holder = c.holder;
  mem = rw e (rw out at (update_where-mem p f db.runs c.mem));
  same_id = c.same_id;
  same_token = c.same_token;
  expires = c.expires;
}

-- A claim that has not ended stops a claim.
unclaimable :
    (r : Run) (token until id now : ℕ)
    → token ≢ 0
    → r.commit_claim_token ≡ token
    → r.commit_claim_expires_at ≡ some until
    → now < until
    → claimable id now r ≡ false
unclaimable r token until id now n e u h = ground arith

Rival-IsClaimed :
    (run_id token until : ℕ) (db db' : Db)
    → token ≢ 0
    → Rival run_id token until db db'
    → IsClaimed run_id token until db
    → IsClaimed run_id token until db'
unfolding claim_committing_run renew_commit_claim release_commit_claim
Rival-IsClaimed run_id token until db db' n (claims id other now lease b early h) c =
    untouched run_id token until db db' (claimable id now) (claimed_run other (now + lease))
      (λ r. refl) (sym (ap (λ o. o.1.runs) h)) c
      (unclaimable c.holder token until id now n c.same_token c.expires early)
Rival-IsClaimed run_id token until db db' n (renews id other now lease ne h) c =
    let (_, e) = if-eq-ok (count_where (holds_claim id other now) db.runs == 1) _ _ h in
    untouched run_id token until db db' (holds_claim id other now) _ (λ r. refl)
      (sym (ap (λ o. o.1.runs) e)) c (ground (arith, c.same_token))
Rival-IsClaimed run_id token until db db' n (releases id other ne h) c =
    untouched run_id token until db db' (λ r. r.id == id && r.commit_claim_token == other) _
      (λ r. refl) (sym (ap (λ d. d.runs) h)) c (ground (arith, c.same_token))

Rivals-IsClaimed :
    (run_id token until : ℕ) (db db' : Db)
    → token ≢ 0
    → Rivals run_id token until db db'
    → IsClaimed run_id token until db
    → IsClaimed run_id token until db'
Rivals-IsClaimed run_id token until db db' n here c = c
Rivals-IsClaimed run_id token until db db' n (next {db' = mid} r v) c =
    Rival-IsClaimed run_id token until mid db' n v
      (Rivals-IsClaimed run_id token until db mid n r c)

-- A claim that succeeded is held until its lease ends.
claim-IsClaimed :
    (run_id token now lease : ℕ) (db db' : Db)
    → PrimaryKey (λ (r : Run). r.id) db.runs
    → claim_committing_run run_id token now lease db ≡ (true, db')
    → IsClaimed run_id token (now + lease) db'
unfolding claim_committing_run
claim-IsClaimed run_id token now lease db db' key h =
    let one : (count_where (claimable run_id now) db.runs == 1) ≡ true = ap (λ o. o.0) h in
    let e = sym (ap (λ o. o.1.runs) h) in
    let (r, m, t) = count_where_witness (claimable run_id now) db.runs (ground arith) in
    record {
      key = rw e (
          PrimaryKey-update_where _ (claimable run_id now) (claimed_run token (now + lease)) db.runs
            (λ x. refl) key);
      holder = claimed_run token (now + lease) r;
      mem = rw e (
          rw t at
            (update_where-mem (claimable run_id now) (claimed_run token (now + lease)) db.runs m));
      same_id = ground arith;
      same_token = refl;
      expires = refl;
    }

-- Once a run is claimed with a token that is not empty, nobody else claims it while the lease lasts:
-- whatever claims before the deadline of any runs, and whatever renewals and releases with other
-- tokens come in between, a claim of the run at a time before the deadline fails and leaves the
-- database as it was.
pub claim_exclusive :
    (run_id token now lease other later other_lease : ℕ) (db held db' : Db)
    → PrimaryKey (λ (r : Run). r.id) db.runs
    → token ≢ 0
    → claim_committing_run run_id token now lease db ≡ (true, held)
    → Rivals run_id token (now + lease) held db'
    → later < now + lease
    → claim_committing_run run_id other later other_lease db' ≡ (false, db')
unfolding claim_committing_run
claim_exclusive run_id token now lease other later other_lease db held db' key n h rivals early =
    let c =
      Rivals-IsClaimed run_id token (now + lease) held db' n rivals
        (claim-IsClaimed run_id token now lease db held key h) in
    let none_claimable : count_where (claimable run_id later) db'.runs ≡ 0 =
      count_where_zero (claimable run_id later) db'.runs (λ r m.
        elim (Bool-cases (r.id == run_id)) [
          | inr o ↦ rw o refl
          | inl o ↦
              let same : r ≡ c.holder =
                PrimaryKey-Keyed _ db'.runs c.key r c.holder m c.mem
                  ((==_iff r.id run_id).0 o ∙ sym c.same_id) in
              rw same (
                unclaimable c.holder token (now + lease) run_id later n c.same_token c.expires
                  early)
        ]) in
    rw (none_claimable, update_where_uncounted (claimable run_id later) _ db'.runs none_claimable)
