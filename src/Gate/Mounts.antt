-- ===== src/Gate/Mounts.antt =====
-- `fstype` of media/core/gate.py: the file system that holds a path, read from the lines of `/proc/mounts`.
use lario_llms.Prelude.{
  ◌≤◌, ◌≡◌, ◌≢◌, ◌↔◌, drop, eq_text_iff, starts_with-append, append_last, Bool-cases, refl, sym, ap,
  ◌∙◌, subst, ◌⊎◌, inl, inr, Bool, true, false, not, ◌&&◌, ◌||◌, Option, none, some, List, [], ◌∷◌,
  ◌++◌, if◌then◌else◌, ltb, length, Text, codes, eq_text, starts_with, rstrip, arith,
}
use lario_llms.Names.{is_slash}
use lario_llms.Names.Paths.{drop-start}

-- the fields of a line
abbrev pub Line : Type 0
Line = List Text

unfoldable pub lies_on : Text → Text → Bool
unfolding eq_text starts_with rstrip
lies_on target point =
    eq_text target point || starts_with target (rstrip is_slash point ++ b'/' ∷ [])

-- whether the line is of a mount that holds the target, and the tests and assignments of the loop body
abbrev pub holds_target : Text → Text → Text → Bool
holds_target target point kind = not (eq_text kind (codes "autofs")) && lies_on target point

abbrev pub better : Text → Text × Text → Text → Text → Text × Text
better target best point kind =
    if holds_target target point kind && ltb (length best.0) (length point)
    then (point, kind)
    else best

-- the mount point and the kind, unless the line has fewer than three fields
abbrev pub mount_of : Line → Option (Text × Text)
mount_of [] = none
mount_of (_ ∷ []) = none
mount_of (_ ∷ _ ∷ []) = none
mount_of (_ ∷ point ∷ kind ∷ _) = some (point, kind)

abbrev pub read_mount : Text → Text × Text → Option (Text × Text) → Text × Text
read_mount target best none = best
read_mount target best (some (point, kind)) = better target best point kind

unfoldable pub scan : Text → Text × Text → List Line → Text × Text
scan target best [] = best
scan target best (line ∷ lines) = scan target (read_mount target best (mount_of line)) lines

-- `mounts` is none where the table cannot be read
unfoldable pub fstype : (Text → Text) → Option (List Line) → Text → Text
unfolding scan lies_on eq_text starts_with rstrip
fstype realpath none path = codes "unknown"
fstype realpath (some lines) path = (scan (realpath path) ([], codes "unknown") lines).1

-- The kind is not autofs, and the point as it is written in the table is the target or a folder above it. A
-- space in a mount point is written there as an escape, which is not decoded.
abbrev pub Holds : Text → Text × Text → Type 0
Holds target (point, kind) =
    (kind ≢ codes "autofs")
    × ((target ≡ point) ⊎ ((rel : Text) × (target ≡ rstrip is_slash point ++ b'/' ∷ rel)))

-- one of the lines is of a mount that holds the target, with this point and kind
abbrev pub Among : Text → List Line → Text × Text → Type 0
Among target [] mount = ⊥
Among target (line ∷ lines) mount =
    ((mount_of line ≡ some mount) × Holds target mount) ⊎ Among target lines mount

-- no mount point of the lines that holds the target is longer
abbrev pub Longest : Text → Text → List Line → Type 0
Longest target point lines =
    (mount : Text × Text) → Among target lines mount → length mount.0 ≤ length point

below_iff :
    (target start : Text)
    → (starts_with target (start ++ b'/' ∷ []) ≡ true)
      ↔ ((rel : Text) × (target ≡ start ++ b'/' ∷ rel))
below_iff target start = (there, back)
  where
    there :
        starts_with target (start ++ b'/' ∷ []) ≡ true
        → (rel : Text) × (target ≡ start ++ b'/' ∷ rel)
    there h =
        let rest = drop (length (start ++ b'/' ∷ [])) target in
        (rest, drop-start (start ++ b'/' ∷ []) target h ∙ append_last start b'/' rest)

    back :
        ((rel : Text) × (target ≡ start ++ b'/' ∷ rel))
        → starts_with target (start ++ b'/' ∷ []) ≡ true
    back (rel, e) =
        ap (λ t. starts_with t (start ++ b'/' ∷ [])) (e ∙ sym (append_last start b'/' rel))
        ∙ starts_with-append (start ++ b'/' ∷ []) rel

holds_target-Holds :
    (target point kind : Text) → holds_target target point kind ≡ true → Holds target (point, kind)
unfolding lies_on
holds_target-Holds target point kind h =
    let start = rstrip is_slash point in
    let lies : (eq_text target point || starts_with target (start ++ b'/' ∷ [])) ≡ true =
      ground arith in
    (
      (λ e. ground (arith, eq_text_iff kind (codes "autofs"), e)),
      elim (Bool-cases (eq_text target point)) [
        | inl same ↦ inl ((eq_text_iff target point).0 same)
        | inr apart ↦ inr (
            (below_iff target start).0
              (sym (ap (λ b. b || starts_with target (start ++ b'/' ∷ [])) apart) ∙ lies))
      ],
    )

Holds-holds_target :
    (target : Text) (mount : Text × Text)
    → Holds target mount
    → holds_target target mount.0 mount.1 ≡ true
unfolding lies_on
Holds-holds_target target (point, kind) (other, inl same) =
    ground (arith, eq_text_iff kind (codes "autofs"), eq_text_iff target point, other, same)
Holds-holds_target target (point, kind) (other, inr below) =
    let start = rstrip is_slash point in
    ground (arith, eq_text_iff kind (codes "autofs"), (below_iff target start).1 below, other)

read_mount-better :
    (target : Text) (best mount : Text × Text) (o : Option (Text × Text))
    → o ≡ some mount
    → holds_target target mount.0 mount.1 ≡ true
    → length mount.0 ≤ length (read_mount target best o).0
read_mount-better target best mount none e h = cc
read_mount-better target best mount (some m) e h =
    let same : m ≡ mount = ap (λ o. elim o [ none ↦ m | some x ↦ x ]) e in
    subst (λ (x : Text × Text). length mount.0 ≤ length (better target best x.0 x.1).0) (sym same)
      (rw h (ground arith))

read_mount-best :
    (target : Text) (best : Text × Text) (o : Option (Text × Text))
    → length best.0 ≤ length (read_mount target best o).0
read_mount-best target best none = omega arith
read_mount-best target best (some (point, kind)) =
    step (holds_target target point kind && ltb (length best.0) (length point)) refl
  where
    step :
        (b : Bool)
        → (holds_target target point kind && ltb (length best.0) (length point)) ≡ b
        → length best.0 ≤ length (if b then (point, kind) else best).0
    step true e = ground arith
    step false e = omega arith

read_mount-Among :
    (target : Text) (best : Text × Text) (o : Option (Text × Text))
    → (read_mount target best o ≡ best)
      ⊎ ((o ≡ some (read_mount target best o))
          × (holds_target target (read_mount target best o).0 (read_mount target best o).1 ≡ true))
read_mount-Among target best none = inl refl
read_mount-Among target best (some (point, kind)) =
    step (holds_target target point kind) (ltb (length best.0) (length point)) refl
  where
    step :
        (a b : Bool)
        → holds_target target point kind ≡ a
        → ((if a && b then (point, kind) else best) ≡ best)
          ⊎ ((some (point, kind) ≡ some (if a && b then (point, kind) else best))
              × (holds_target target
                    (if a && b then (point, kind) else best).0
                    (if a && b then (point, kind) else best).1
                  ≡ true))
    step true true e = inr (refl, e)
    step true false e = inl refl
    step false b e = inl refl

-- what the loop has found
pub record Found (target : Text) (best result : Text × Text) (lines : List Line) : Type 0 where
  pub from : (result ≡ best) ⊎ Among target lines result
  pub grown : length best.0 ≤ length result.0
  pub longest : Longest target result.0 lines

scan-Found :
    (target : Text) (best : Text × Text) (lines : List Line)
    → Found target best (scan target best lines) lines
unfolding scan
scan-Found target best [] = record {
  from = inl refl;
  grown = omega arith;
  longest = λ mount h. absurd h;
}
scan-Found target best (line ∷ lines) =
    let next = read_mount target best (mount_of line) in
    let f = scan-Found target next lines in
    let grows = read_mount-best target best (mount_of line) in
    record {
      from = elim f.from [
        | inr later ↦ inr (inr later)
        | inl same ↦ elim (read_mount-Among target best (mount_of line)) [
          | inl old ↦ inl (same ∙ old)
          | inr new ↦ inr (
              subst (Among target (line ∷ lines)) (sym same)
                (inl (new.0, holds_target-Holds (target) _ _ new.1)))
        ]
      ];
      grown = omega (arith, f.grown, grows);
      longest = λ mount h. elim h [
        | inl here ↦ omega (
          arith,
          read_mount-better target best mount (mount_of line) here.0
              (Holds-holds_target target mount here.1),
          f.grown,
        )
        | inr later ↦ f.longest mount later
      ];
    }

-- Of a mount table that can be read, where the mounts of the kind autofs are passed over and a mount point is
-- compared as it is written in the table, without decoding its escapes: the kind that is reported is that of
-- a mount whose point is the real path or a folder above it while no such mount has a longer point, or it is
-- `unknown` while every such mount has an empty point.
pub fstype-Longest :
    (realpath : Text → Text) (lines : List Line) (path : Text)
    → ((fstype realpath (some lines) path ≡ codes "unknown") × Longest (realpath path) [] lines)
      ⊎ ((point : Text) × Among (realpath path) lines (point, fstype realpath (some lines) path)
          × Longest (realpath path) point lines)
unfolding fstype
fstype-Longest realpath lines path =
    let f = scan-Found (realpath path) ([], codes "unknown") lines in
    elim f.from [
      | inl same ↦ inl (
        ap (λ m. m.1) same,
        subst (λ (p : Text). Longest (realpath path) p lines) (ap (λ m. m.0) same) f.longest,
      )
      | inr among ↦ inr ((scan (realpath path) ([], codes "unknown") lines).0, among, f.longest)
    ]
