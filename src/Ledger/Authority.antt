-- ===== src/Ledger/Authority.antt =====
-- What it takes to delete a file.
use lario_llms.Prelude.{
  ℕ, suc, String, ◌≡◌, ◌≢◌, refl, sym, ap, ◌∙◌, inl, inr, Bool, true, false, ◌||◌, Option, none,
  some, List, [], ◌∷◌, ◌++◌, any, if◌then◌else◌, str_eq, eq_iff, eq_refl, arith, Bool-cases,
  Option-cases, subst, Dict, lookup, remove, ok,
}
use lario_llms.Ledger.{
  copy, delete, pending, done, Commit, Ledger, equals, greatest, record_row, request_delete,
  verify_copy, newest, mark_delete_done, is_request, survives, proved, authorised,
  authorised_delete, removed, remove_file,
}

-- what authorises the deletion of `target`, whose bytes have this hash
pub record Authority (l : Ledger) (run_id target digest : String) (row : Commit) : Type 0 where
  pub applies : l.apply ≡ true
  pub requested : is_request run_id target row ≡ true
  pub hash : row.src_sha256 ≡ some digest
  pub survivor : any (survives digest target) l.commits ≡ true

newest-true :
    (p : Commit → Bool) (rs : List Commit) {r : Commit} → newest p rs ≡ some r → p r ≡ true
unfolding newest
newest-true p [] h = cc
newest-true p (x ∷ xs) {r} h = elim (Option-cases (newest p xs)) [
  | inl nothing ↦
      let h' : (if p x then some x else none) ≡ some r = rw nothing at h in
      elim (Bool-cases (p x)) [
        | inl here ↦
            let k : some x ≡ some r = rw here at h' in let same : x ≡ r = cc in rw (sym same) here
        | inr other ↦ let k = rw other at h' in cc
      ]
  | inr (y, found) ↦
      let k : some y ≡ some r = rw found at h in
      let same : y ≡ r = cc in rw (sym same) (newest-true p xs found)
]

proved-eq-some :
    (commits : List Commit) (target : String) (row : Commit) (o : Option String) {r : Commit}
    → proved commits target row o ≡ some r
    → (digest : String) × (o ≡ some digest)
      × (any (survives digest target) commits ≡ true)
      × (row ≡ r)
proved-eq-some commits target row none h = cc
proved-eq-some commits target row (some digest) h = (digest, refl, ground arith, ground arith)

authorised-eq-some :
    (l : Ledger) (run_id target : String) (o : Option Commit) {r : Commit}
    → newest (is_request run_id target) l.commits ≡ o
    → authorised l target o ≡ some r
    → (digest : String) × Authority l run_id target digest r
authorised-eq-some l run_id target none e h = cc
authorised-eq-some l run_id target (some row) {r} e h = elim (Bool-cases l.apply) [
  | inl applies ↦
      let (digest, hash, survivor, same) =
        proved-eq-some l.commits target row row.src_sha256 (rw applies at h) in
      (
        digest,
        record {
          applies = applies;
          requested = rw (sym same) (newest-true (is_request run_id target) l.commits e);
          hash = rw (sym same) hash;
          survivor = survivor;
        },
      )
  | inr plan ↦ let h' = rw plan at h in cc
]

removed-eq-ok :
    (target : String) (o : Option String) (row : Option Commit) (l : Ledger) (files : Dict String)
    {n : ℕ} {l' : Ledger} {files' : Dict String}
    → removed target o row l files ≡ (ok n, (l', files'))
    → (digest : String) × (r : Commit) × (o ≡ some digest)
      × (row ≡ some r)
      × (equals r.src_sha256 digest ≡ true)
      × (l' ≡ mark_delete_done r.id l)
      × (files' ≡ remove target files)
removed-eq-ok target none row l files h = cc
removed-eq-ok target (some digest) none l files h = cc
removed-eq-ok target (some digest) (some r) l files {n = n} {l' = l'} {files' = files'} h =
    elim (Bool-cases (equals r.src_sha256 digest)) [
      | inl same ↦
          let k : (ok r.bytes, (mark_delete_done r.id l, remove target files))
              ≡ (ok n, (l', files')) =
            rw same at h in
          (digest, r, refl, refl, same, sym (ap (λ x. x.1.0) k), sym (ap (λ x. x.1.1) k))
      | inr differ ↦ let k = rw differ at h in cc
    ]

-- A file is removed only if it is a regular file and no link, the ledger applies, the run holds a pending
-- request to delete exactly this path, the file still has the hash of the request, and a verified copy
-- with this hash is recorded at another path. Then this one file is gone, the request is done, and
-- nothing else changes. (Resolving a path twice gives the same path.)
pub remove_file-Authority :
    (realpath : String → String) (is_link : Bool) (run_id path : String) (l : Ledger)
    (files : Dict String) {n : ℕ} {l' : Ledger} {files' : Dict String}
    → ((p : String) → realpath (realpath p) ≡ realpath p)
    → remove_file realpath is_link run_id path l files ≡ (ok n, (l', files'))
    → (is_link ≡ false)
      × (digest : String) × (row : Commit) × (lookup (realpath path) files ≡ some digest)
      × Authority l run_id (realpath path) digest row
      × (l' ≡ mark_delete_done row.id l)
      × (files' ≡ remove (realpath path) files)
unfolding remove_file authorised_delete
remove_file-Authority realpath true run_id path l files idem h = cc
remove_file-Authority realpath false run_id path l files idem h =
    let target = realpath path in
    let again : realpath (realpath (realpath path)) ≡ target = idem (realpath path) ∙ idem path in
    let (digest, row, there, found, same, after, left) =
      removed-eq-ok target (lookup target files)
        (authorised_delete realpath run_id (realpath (realpath path)) l) l files h in
    let (hash, a) =
      authorised-eq-some l run_id target (newest (is_request run_id target) l.commits) refl
        (rw again at found) in
    let equal : hash ≡ digest = ground (arith, a.hash, same, eq_iff hash digest) in
    (
      refl,
      digest,
      row,
      there,
      subst (λ (x : String). Authority l run_id target x row) equal a,
      after,
      left,
    )

newest-append :
    (p : Commit → Bool) (rs : List Commit) (r : Commit)
    → newest p (rs ++ r ∷ []) ≡ (if p r then some r else newest p rs)
unfolding newest
newest-append p [] r = ground arith
newest-append p (x ∷ xs) r = ground (arith, newest-append p xs r)

any-append_last :
    (p : Commit → Bool) (rs : List Commit) (r : Commit) → any p (rs ++ r ∷ []) ≡ (any p rs || p r)
any-append_last p [] r = ground arith
any-append_last p (x ∷ xs) r = ground (arith, any-append_last p xs r)

if_same : (b : Bool) (x : String) → (if b then x else x) ≡ x
if_same true x = refl
if_same false x = refl

authorised_of :
    (l : Ledger) (target digest : String) (o : Option Commit) (row : Commit)
    → o ≡ some row
    → l.apply ≡ true
    → row.src_sha256 ≡ some digest
    → str_eq digest "" ≡ false
    → any (survives digest target) l.commits ≡ true
    → authorised l target o ≡ some row
authorised_of l target digest o row e applies hash sized kept =
    rw (e, applies, hash, sized, kept) refl

-- A request to delete a file and then a verified copy of its bytes at another path give the authority for
-- the deletion, on a ledger that applies: the row that is handed out is that request. (Resolving a path
-- twice gives the same path.)
pub authorised_delete-verify_copy :
    (realpath : String → String) (run_id path dst digest first second : String) (n m : ℕ)
    (l : Ledger)
    → ((p : String) → realpath (realpath p) ≡ realpath p)
    → l.apply ≡ true
    → digest ≢ ""
    → realpath dst ≢ realpath path
    → (row : Commit) × (authorised_delete realpath run_id path
          (verify_copy realpath run_id dst digest m second
            (request_delete realpath run_id path digest n first l).1).1
        ≡ some row)
      × (row.id ≡ (request_delete realpath run_id path digest n first l).0)
      × (row.src ≡ some (realpath path))
      × (row.src_sha256 ≡ some digest)
unfolding authorised_delete verify_copy request_delete record_row
authorised_delete-verify_copy realpath run_id path dst digest first second n m l idem applies sized
      apart =
    let target = realpath path in
    let named : str_eq digest "" ≡ false = ground (arith, eq_iff digest "", sized) in
    let other : str_eq (realpath dst) target ≡ false =
      ground (arith, eq_iff (realpath dst) target, apart) in
    let row : Commit = record {
      id = suc (greatest l.commits);
      run_id = run_id;
      op = delete;
      src = some target;
      dst = none;
      src_sha256 = some digest;
      dst_sha256 = none;
      bytes = n;
      status = pending;
      requested_by = first;
    } in
    let copied : Commit = record {
      id = suc (greatest (l.commits ++ row ∷ []));
      run_id = run_id;
      op = copy;
      src = none;
      dst = some (realpath dst);
      src_sha256 = none;
      dst_sha256 = some digest;
      bytes = m;
      status = done;
      requested_by = second;
    } in
    let run : str_eq run_id run_id ≡ true = eq_refl run_id in
    let here : str_eq target target ≡ true = eq_refl target in
    let bytes : str_eq digest digest ≡ true = eq_refl digest in
    (
      row,
      simp (idem, if_same)
          (authorised_of (record l { commits = (l.commits ++ row ∷ []) ++ copied ∷ [] }) target
            digest _ row
            (rw
              (
                newest-append (is_request run_id target) (l.commits ++ row ∷ []) copied,
                newest-append (is_request run_id target) l.commits row,
              )
              (ground (arith, run, here)))
            applies refl named
            (rw (any-append_last (survives digest target) (l.commits ++ row ∷ []) copied)
              (ground (arith, bytes, other)))),
      refl,
      refl,
      refl,
    )
