-- ===== src/Ledger/Resume.antt =====
-- Replaying a run: a row that was claimed is not handed out again.
use lario_llms.Prelude.{
  ℕ, String, ◌≡◌, refl, sym, Bool, true, false, ◌&&◌, some, List, [], ◌∷◌, map, any, ◌==◌, arith,
  Bool-cases, inl, inr,
}
use lario_llms.Ledger.{
  Commit, Ledger, is_pending, claimed, claim_pending, is_pending_of, next_pending, oldest,
}

abbrev is_open : ℕ → Commit → Bool
is_open id r = r.id == id && is_pending r.status

is_open-claimed : (id : ℕ) (r : Commit) → is_open id (claimed id r) ≡ false
is_open-claimed id r = ground arith

any-claimed : (id : ℕ) (rs : List Commit) → any (is_open id) (map (claimed id) rs) ≡ false
any-claimed id [] = refl
any-claimed id (r ∷ rs) = ground (arith, is_open-claimed id r, any-claimed id rs)

claimed-claimed : (id : ℕ) (r : Commit) → claimed id (claimed id r) ≡ claimed id r
claimed-claimed id r = elim (Bool-cases (is_open id r)) [
  | inl open_ ↦ rw open_ (ground arith)
  | inr shut ↦ rw shut (rw shut refl)
]

map-claimed :
    (id : ℕ) (rs : List Commit) → map (claimed id) (map (claimed id) rs) ≡ map (claimed id) rs
map-claimed id [] = refl
map-claimed id (r ∷ rs) = cc (claimed-claimed id r, map-claimed id rs)

-- A row is claimed once: the second claim of it fails and changes nothing, whoever makes it.
pub claim_pending-claim_pending :
    (id : ℕ) (l : Ledger)
    → claim_pending id (claim_pending id l).1 ≡ (false, (claim_pending id l).1)
unfolding claim_pending
claim_pending-claim_pending id l = rw (any-claimed id l.commits, map-claimed id l.commits) refl

oldest-claimed :
    (run_id : String) (id : ℕ) (rs : List Commit) {r : Commit}
    → oldest (is_pending_of run_id) (map (claimed id) rs) ≡ some r
    → ((r.id == id) ≡ false) × (is_pending_of run_id r ≡ true)
unfolding oldest
oldest-claimed run_id id [] h = cc
oldest-claimed run_id id (x ∷ xs) {r} h = elim (Bool-cases (is_pending_of run_id (claimed id x))) [
  | inl found ↦
      let h' : some (claimed id x) ≡ some r = rw found at h in
      let same : claimed id x ≡ r = cc in
      let shut = is_open-claimed id x in
      (rw (sym same) (ground (arith, found, shut)), rw (sym same) found)
  | inr other ↦ oldest-claimed run_id id xs (rw other at h)
]

-- After a claim the next row of a run is another one, and is still pending.
pub next_pending-claim_pending :
    (run_id : String) (id : ℕ) (l : Ledger) {r : Commit}
    → next_pending run_id (claim_pending id l).1 ≡ some r
    → ((r.id == id) ≡ false) × (is_pending_of run_id r ≡ true)
unfolding next_pending claim_pending
next_pending-claim_pending run_id id l h = oldest-claimed run_id id l.commits h
