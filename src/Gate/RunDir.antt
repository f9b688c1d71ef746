-- ===== src/Gate/RunDir.antt =====
-- `claim_run_dir` of media/core/gate.py: a run claims the directory of its evidence by creating it. `run_ids` are the
-- ids that `new_run_id` mints, one for each attempt, `dirs` the directories that exist; the destination is one.
use lario_llms.Prelude.{
  ℕ, zero, suc, ◌+◌, ◌≤◌, ◌<◌, ◌≡◌, sym, ap, ◌∙◌, subst, inl, inr, true, false, List, [], ◌∷◌,
  if◌then◌else◌, Text, codes, eq_text, eq_text_iff, ends_with, Result, ok, err, arith, Bool-cases,
  if-cases,
}
use lario_llms.Gate.{refusal, join, is_among}

unfoldable pub evidence_dir : Text → Text → Text
unfolding join ends_with eq_text
evidence_dir dest run_id = join (join dest (codes "_mediatool")) run_id

-- `os.makedirs(path, exist_ok=True)` below a directory that exists
abbrev pub make_dir : Text → List Text → List Text
unfolding eq_text
make_dir path dirs = if is_among path dirs then dirs else path ∷ dirs

-- the attempts that are left, the one with the id of this number first
unfoldable pub claim_from : (ℕ → Text) → Text → ℕ → ℕ → List Text → Result (Text × Text) × List Text
unfolding evidence_dir join ends_with eq_text
claim_from run_ids dest zero attempt dirs = (err refusal, dirs)
claim_from run_ids dest (suc left) attempt dirs =
    let path = evidence_dir dest (run_ids attempt) in
    let dirs = make_dir (join dest (codes "_mediatool")) dirs in
    elim (is_among path dirs) [
      | false ↦ (ok (run_ids attempt, path), path ∷ dirs)
      | true ↦ claim_from run_ids dest left (attempt + 1) dirs
    ]

unfoldable pub claim_run_dir : (ℕ → Text) → Text → List Text → Result (Text × Text) × List Text
unfolding claim_from
claim_run_dir run_ids dest dirs = claim_from run_ids dest 200 0 dirs

-- what a successful claim did, from the attempt with this number on
pub record Claim (run_ids : ℕ → Text) (dest : Text) (first left : ℕ) (dirs : List Text)
    (run_id path : Text) (dirs' : List Text) : Type 0 where
  pub attempt : ℕ
  pub late : first ≤ attempt
  pub bounded : attempt < first + left
  pub minted : run_id ≡ run_ids attempt
  pub placed : path ≡ evidence_dir dest run_id
  pub was_free : is_among path dirs ≡ false
  pub is_there : is_among path dirs' ≡ true
  pub kept : (d : Text) → is_among d dirs ≡ true → is_among d dirs' ≡ true

make_dir-keeps :
    (path d : Text) (dirs : List Text)
    → is_among d dirs ≡ true
    → is_among d (make_dir path dirs) ≡ true
unfolding make_dir
make_dir-keeps path d dirs h = elim (Bool-cases (is_among path dirs)) [
  | inl e ↦ rw e h
  | inr e ↦ rw e (ground (arith, h))
]

is_among-before :
    (path d : Text) (dirs : List Text)
    → is_among d (make_dir path dirs) ≡ false
    → is_among d dirs ≡ false
is_among-before path d dirs h = elim (Bool-cases (is_among d dirs)) [
  | inl e ↦ let k = make_dir-keeps path d dirs e in cc
  | inr e ↦ e
]

claim_from-eq-ok :
    (run_ids : ℕ → Text) (dest : Text) (left first : ℕ) (dirs : List Text) {run_id path : Text}
    {dirs' : List Text}
    → claim_from run_ids dest left first dirs ≡ (ok (run_id, path), dirs')
    → Claim run_ids dest first left dirs run_id path dirs'
unfolding claim_from
claim_from-eq-ok run_ids dest zero first dirs h = cc
claim_from-eq-ok run_ids dest (suc left) first dirs {run_id = run_id} {path = path} {dirs' = dirs'}
      h =
    let here = evidence_dir dest (run_ids first) in
    let root = join dest (codes "_mediatool") in
    elim (if-cases (is_among here (make_dir root dirs))
      (ok (run_ids first, here), here ∷ make_dir root dirs)
      (claim_from run_ids dest left (first + 1) (make_dir root dirs)) h) [
        | inl (taken, rest) ↦
            let c = claim_from-eq-ok run_ids dest left (first + 1) (make_dir root dirs) rest in
            record {
              attempt = c.attempt;
              late = omega (arith, c.late);
              bounded = omega (arith, c.bounded);
              minted = c.minted;
              placed = c.placed;
              was_free = is_among-before root path dirs c.was_free;
              is_there = c.is_there;
              kept = λ d there. c.kept d (make_dir-keeps root d dirs there);
            }
        | inr (free, now) ↦
            let id : run_ids first ≡ run_id = ap (λ x. elim x.0 [ ok y ↦ y.0 | err _ ↦ [] ]) now in
            let at_path : here ≡ path = ap (λ x. elim x.0 [ ok y ↦ y.1 | err _ ↦ [] ]) now in
            let after : here ∷ make_dir root dirs ≡ dirs' = ap (λ x. x.1) now in
            record {
              attempt = first;
              late = omega arith;
              bounded = omega arith;
              minted = sym id;
              placed = sym at_path ∙ ap (evidence_dir dest) id;
              was_free =
                  subst (λ (p : Text). is_among p dirs ≡ false) at_path
                    (is_among-before root here dirs free);
              is_there =
                  subst (λ (ds : List Text). is_among path ds ≡ true) after
                    (ground (arith, eq_text_iff path here, at_path));
              kept = λ d there.
                  subst (λ (ds : List Text). is_among d ds ≡ true) after
                    (ground (arith, make_dir-keeps root d dirs there));
            }
      ]

-- A run that claims a directory gets one of the first 200 ids that are minted. The directory did not exist
-- before, it exists afterwards, and every directory that existed is still there.
pub claim_run_dir-eq-ok :
    (run_ids : ℕ → Text) (dest : Text) (dirs : List Text) {run_id path : Text} {dirs' : List Text}
    → claim_run_dir run_ids dest dirs ≡ (ok (run_id, path), dirs')
    → Claim run_ids dest 0 200 dirs run_id path dirs'
unfolding claim_run_dir
claim_run_dir-eq-ok run_ids dest dirs h = claim_from-eq-ok run_ids dest 200 0 dirs h

-- Two runs that claim a directory one after the other get different directories, whatever ids are minted.
pub claim_run_dir-claim_run_dir :
    (first_ids second_ids : ℕ → Text) (dest other_dest : Text) (dirs : List Text)
    {run_id path other_id other_path : Text} {dirs' dirs'' : List Text}
    → claim_run_dir first_ids dest dirs ≡ (ok (run_id, path), dirs')
    → claim_run_dir second_ids other_dest dirs' ≡ (ok (other_id, other_path), dirs'')
    → eq_text path other_path ≡ false
claim_run_dir-claim_run_dir first_ids second_ids dest other_dest dirs {path = path}
      {other_path = other_path} {dirs' = dirs'} h k =
    let c = claim_run_dir-eq-ok first_ids dest dirs h in
    let d = claim_run_dir-eq-ok second_ids other_dest dirs' k in
    elim (Bool-cases (eq_text path other_path)) [
      | inl e ↦
          let same : other_path ≡ path = sym ((eq_text_iff path other_path).0 e) in
          let free : is_among path dirs' ≡ false =
            subst (λ (p : Text). is_among p dirs' ≡ false) same d.was_free in
          cc (free, c.is_there)
      | inr e ↦ e
    ]
