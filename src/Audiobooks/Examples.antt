-- ===== src/Audiobooks/Examples.antt =====
-- Two files in one collection, of which one is fetched.
use lario_llms.Prelude.{
  ℕ, ◌+◌, ◌≡◌, refl, true, false, not, none, some, List, [], ◌∷◌, map, ◌==◌, leb, All, Text, codes,
  eq_text, starts_with, rpartition, ok, if◌then◌else◌,
}
use lario_llms.Names.{basename}
use lario_llms.Audiobooks.Catalog.{
  Entry, Case, Group, entry_key, is_seen, dedupe_from, dedupe, safe_parts, has_parent, destination,
  prefixes_of, select_entries, up_to_last, drop_extensionless, drop_strays, is_stray, marks, mark,
  duplicate,
}
use lario_llms.Audiobooks.Catalog.Distinct.{Fresh, SortedOut, keys_of, dedupe-Fresh}
use lario_llms.Audiobooks.Fetch.{
  Place, Attempt, Task, fetched, done, tries, fetch, count_outcome, fetch_all, final_state, run,
}
use lario_llms.Audiobooks.Fetch.Verified.{Verified, fetch-Verified}
use lario_llms.Audiobooks.Fetch.Job.{AllWhole, run-AllWhole}

abbrev case : Case
case = record {
  lower = map (λ c. if leb b'A' c then (if leb c b'Z' then c + 32 else c) else c);
  is_space = λ c. c == b' ';
}

abbrev first : Entry
first = record { rel = codes "Quran/One.m4b"; size = some 7; code = "c"; fileid = 1 }

abbrev again : Entry
again = record { rel = codes "Seerah/one.m4b"; size = some 7; code = "d"; fileid = 2 }

abbrev bare : Entry
bare = record { rel = codes "Quran/ONE"; size = some 8; code = "c"; fileid = 3 }

deduped : dedupe case (first ∷ again ∷ []) ≡ (first ∷ [], (codes "Seerah/one.m4b", duplicate) ∷ [])
unfolding dedupe dedupe_from entry_key basename rpartition eq_text
deduped = refl

stray : (drop_extensionless case (first ∷ bare ∷ [])).0 ≡ first ∷ []
unfolding drop_extensionless drop_strays is_stray marks mark up_to_last basename rpartition eq_text
stray = refl

dedupe-Fresh_example :
    Fresh [] (keys_of case (dedupe case (first ∷ again ∷ [])).0)
    × All
        (λ e. is_seen (entry_key case e) (keys_of case (dedupe case (first ∷ again ∷ [])).0) ≡ true)
        (first ∷ again ∷ [])
    × SortedOut
        (first ∷ again ∷ [])
        (dedupe case (first ∷ again ∷ [])).0
        (dedupe case (first ∷ again ∷ [])).1
dedupe-Fresh_example = dedupe-Fresh case (first ∷ again ∷ [])

abbrev as_found : List Group → List Group
as_found groups = groups

chosen : select_entries (first ∷ again ∷ []) (codes "Quran/" ∷ []) ≡ ok (first ∷ [])
unfolding select_entries prefixes_of safe_parts eq_text starts_with
chosen = refl

abbrev as_given : Text → Text
as_given path = path

placed : destination as_given (codes "Quran//One.m4b") (codes "/m") ≡ ok (codes "/m/Quran/One.m4b")
unfolding destination safe_parts has_parent eq_text starts_with
placed = refl

-- a transfer that breaks off, and then one that completes the part
abbrev attempts : ℕ → Attempt
attempts n = record {
  stopped = false;
  linked = true;
  transfer = λ part. if n == 0 then some 3 else some 7;
  transferred = not (n == 0);
}

abbrev missing : Place
missing = record { dest = none; part = none }

abbrev present : Place
present = record { dest = some 7; part = none }

fetches : fetch 7 attempts missing ≡ (fetched 7, present)
unfolding fetch tries
fetches = refl

fetch-Verified_example : Verified 7 missing (fetch 7 attempts missing)
fetch-Verified_example = fetch-Verified 7 attempts missing

abbrev tasks : List Task
tasks =
    record { want = 7; attempts = attempts; place = missing }
    ∷ record { want = 7; attempts = attempts; place = present }
    ∷ []

completes : (run false tasks).0 ≡ done
unfolding run fetch_all count_outcome fetch tries final_state
completes = refl

run-AllWhole_example :
    ((run false tasks).0 ≡ done → AllWhole tasks (run false tasks).2)
    × ((run false tasks).1.done
          + (run false tasks).1.skipped
          + (run false tasks).1.failed
          + (run false tasks).1.stopped
        ≡ 2)
run-AllWhole_example = run-AllWhole tasks ((λ n. refl), ((λ n. refl), tt))
