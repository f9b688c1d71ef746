-- ===== src/Ledger/Examples.antt =====
-- One file with a copy, on an empty ledger. Every path is its own real path.
use lario_llms.Prelude.{
  String, ◌≡◌, refl, true, false, false≢true, eq_iff, none, some, [], ◌∷◌, Dict, lookup, remove, ok,
}
use lario_llms.Ledger.{
  delete, copy, pending, done, Commit, Ledger, greatest, record_row, request_delete, verify_copy,
  newest, oldest, mark_delete_done, claim_pending, next_pending, authorised_delete,
  unclaimed_deletes, remove_file,
}
use lario_llms.Ledger.Authority.{Authority, remove_file-Authority, authorised_delete-verify_copy}

abbrev empty : Ledger
empty = record { apply = true; runs = []; commits = [] }

abbrev same : String → String
same path = path

abbrev request : Commit
request = record {
  id = 1;
  run_id = "run";
  op = delete;
  src = some "/a";
  dst = none;
  src_sha256 = some "h";
  dst_sha256 = none;
  bytes = 5;
  status = pending;
  requested_by = "plan";
}

abbrev kept : Commit
kept = record {
  id = 2;
  run_id = "run";
  op = copy;
  src = none;
  dst = some "/b";
  src_sha256 = none;
  dst_sha256 = some "h";
  bytes = 5;
  status = done;
  requested_by = "apply";
}

abbrev ledger : Ledger
ledger = record { apply = true; runs = []; commits = request ∷ kept ∷ [] }

abbrev deleted : Ledger
deleted = record { apply = true; runs = []; commits = record request { status = done } ∷ kept ∷ [] }

recorded :
    (verify_copy same "run" "/b" "h" 5 "apply"
      (request_delete same "run" "/a" "h" 5 "plan" empty).1).1
    ≡ ledger
unfolding verify_copy request_delete record_row greatest
recorded = refl

abbrev files : Dict String
files = ("/a", "h") ∷ ("/b", "h") ∷ []

removes : remove_file same false "run" "/a" ledger files ≡ (ok 5, (deleted, ("/b", "h") ∷ []))
unfolding remove_file authorised_delete newest mark_delete_done lookup remove
removes = refl

remove_file-Authority_example :
    (false ≡ false)
    × (digest : String) × (row : Commit) × (lookup "/a" files ≡ some digest)
    × Authority ledger "run" "/a" digest row
    × (deleted ≡ mark_delete_done row.id ledger)
    × ((("/b", "h") ∷ []) ≡ remove "/a" files)
remove_file-Authority_example =
    remove_file-Authority same false "run" "/a" ledger files (λ p. refl) removes

authorised_delete-verify_copy_example :
    (row : Commit) × (authorised_delete same "run" "/a"
        (verify_copy same "run" "/b" "h" 5 "apply"
          (request_delete same "run" "/a" "h" 5 "plan" empty).1).1
      ≡ some row)
    × (row.id ≡ (request_delete same "run" "/a" "h" 5 "plan" empty).0)
    × (row.src ≡ some "/a")
    × (row.src_sha256 ≡ some "h")
authorised_delete-verify_copy_example =
    authorised_delete-verify_copy same "run" "/a" "/b" "h" "plan" "apply" 5 5 empty (λ p. refl) refl
      (λ e. false≢true ((eq_iff "h" "").1 e)) (λ e. false≢true ((eq_iff "/b" "/a").1 e))

abbrev two : Ledger
two = record { apply = true; runs = []; commits = request ∷ record request { id = 2 } ∷ [] }

following : next_pending "run" (claim_pending 1 two).1 ≡ some (record request { id = 2 })
unfolding next_pending claim_pending oldest
following = refl

-- a verified copy leaves no deletion without a survivor
none_unclaimed : unclaimed_deletes "run" deleted ≡ []
unfolding unclaimed_deletes
none_unclaimed = refl
