-- ===== src/Gate/Examples.antt =====
-- A destination beside its source, and two runs whose ids collide.
use lario_llms.Prelude.{
  ℕ, ◌≡◌, ◌≢◌, refl, ◌⊎◌, true, false, some, [], ◌∷◌, ◌==◌, if◌then◌else◌, Text, codes, eq_text,
  starts_with, ends_with, rstrip, List, map, All, ok, err,
}
use lario_llms.Gate.{refusal, join}
use lario_llms.Gate.Paths.{
  System, Disjoint, is_inside, check_source, check_sources, check_paths, check_paths-eq-ok,
}
use lario_llms.Gate.RunDir.{evidence_dir, claim_from, claim_run_dir, claim_run_dir-claim_run_dir}
use lario_llms.Gate.Mounts.{Line, Among, Longest, scan, lies_on, fstype, fstype-Longest}

abbrev disk : System
disk = record { realpath = λ p. p; exists = λ p. true; is_dir = λ p. true; is_writable = λ p. true }

abbrev sources : List Text
sources = codes "/in/a" ∷ codes "/in/b" ∷ []

passes : check_paths disk (codes "/out") sources false [] ≡ ok (codes "/out", sources)
unfolding check_paths check_sources check_source is_inside starts_with eq_text
passes = refl

slashless :
    All (λ path. ends_with (disk.realpath path) (codes "/") ≡ false) (codes "/out" ∷ sources)
unfolding ends_with
slashless = (refl, (refl, (refl, tt)))

check_paths-eq-ok_example :
    (sources ≢ [])
    × (true ≡ true)
    × (true ≡ true)
    × (codes "/out" ≡ codes "/out")
    × (sources ≡ map disk.realpath sources)
    × All (λ src. (true ≡ true) × (true ≡ true)) sources
    × All (λ src. disk.realpath src ≢ codes "/out") sources
    × (((false ≡ true) × (◌≢◌ {A = Text} [] []))
        ⊎ Disjoint (codes "/out") [] (map disk.realpath sources))
check_paths-eq-ok_example = check_paths-eq-ok disk (codes "/out") sources false [] slashless passes

nested : check_paths disk (codes "/in/a/out") sources false [] ≡ err refusal
unfolding check_paths check_sources check_source is_inside starts_with eq_text
nested = refl

-- the same source twice is let through
twice :
    check_paths disk (codes "/out") (codes "/in" ∷ codes "/in" ∷ []) false []
    ≡ ok (codes "/out", codes "/in" ∷ codes "/in" ∷ [])
unfolding check_paths check_sources check_source is_inside starts_with eq_text
twice = refl

-- the first id is used twice
abbrev ids : ℕ → Text
ids n = if n == 0 then codes "r" else codes "s"

abbrev root : Text
root = codes "/out/_mediatool"

abbrev one_run : List Text
one_run = codes "/out/_mediatool/r" ∷ root ∷ codes "/out" ∷ []

abbrev two_runs : List Text
two_runs = codes "/out/_mediatool/s" ∷ one_run

first :
    claim_run_dir ids (codes "/out") (codes "/out" ∷ [])
    ≡ (ok (codes "r", codes "/out/_mediatool/r"), one_run)
unfolding claim_run_dir claim_from evidence_dir join ends_with eq_text
first = refl

second :
    claim_run_dir ids (codes "/out") one_run ≡ (ok (codes "s", codes "/out/_mediatool/s"), two_runs)
unfolding claim_run_dir claim_from evidence_dir join ends_with eq_text
second = refl

claim_run_dir-claim_run_dir_example :
    eq_text (codes "/out/_mediatool/r") (codes "/out/_mediatool/s") ≡ false
claim_run_dir-claim_run_dir_example =
    claim_run_dir-claim_run_dir ids ids (codes "/out") (codes "/out") (codes "/out" ∷ []) first
      second

abbrev table : List Line
table =
    (codes "/dev/a" ∷ codes "/" ∷ codes "ext4" ∷ [])
    ∷ (codes "/dev/b" ∷ codes "/mnt/m" ∷ codes "xfs" ∷ codes "rw" ∷ [])
    ∷ []

on_xfs : fstype (λ p. p) (some table) (codes "/mnt/m/a") ≡ codes "xfs"
unfolding fstype scan lies_on eq_text starts_with rstrip
on_xfs = refl

-- the table writes a space of a mount point as `\040`, which no path begins with
abbrev spaced : List Line
spaced =
    (codes "/dev/a" ∷ codes "/" ∷ codes "ext4" ∷ [])
    ∷ (codes "/dev/c" ∷ codes "/mnt/My\\040Disk" ∷ codes "exfat" ∷ [])
    ∷ []

escaped : fstype (λ p. p) (some spaced) (codes "/mnt/My Disk/a") ≡ codes "ext4"
unfolding fstype scan lies_on eq_text starts_with rstrip
escaped = refl

fstype-Longest_example :
    ((fstype (λ p. p) (some table) (codes "/mnt/m/a") ≡ codes "unknown")
      × Longest (codes "/mnt/m/a") [] table)
    ⊎ ((point : Text) × Among
          (codes "/mnt/m/a")
          table
          (point, fstype (λ p. p) (some table) (codes "/mnt/m/a"))
        × Longest (codes "/mnt/m/a") point table)
fstype-Longest_example = fstype-Longest (λ p. p) table (codes "/mnt/m/a")

-- nothing is found to lie in the root folder
root_source :
    check_paths disk (codes "/out") (codes "/" ∷ []) false [] ≡ ok (codes "/out", codes "/" ∷ [])
unfolding check_paths check_sources check_source is_inside starts_with eq_text
root_source = refl
