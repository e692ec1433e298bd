-- ===== src/Examples/Clustered.antt =====
-- The clusters of postings at concrete inputs.
use career_pilot_ai.Prelude.{
  In, List, Option, String, [], false, here, if◌then◌else◌, ltb, map, none, refl, some, str_eq,
  there, ℕ, ◌<◌, ◌↔◌, ◌∷◌, ◌≡◌, ◌≤◌, ◌⊎◌,
}
use career_pilot_ai.Dedup.Hashes.{from_signed, hamming, negsuc, simhash64, to_signed, weigh}
use career_pilot_ai.Dedup.Hashes.Stored.{IsBigint, bit_of, hashes_of, shift_by, simhash64-to_signed}
use career_pilot_ai.Dedup.{DedupCandidate, canonical_pick}
use career_pilot_ai.Dedup.Forest.{UnionFind, new, union, keys, total}
use career_pilot_ai.Dedup.Forest.Partition.{IsValid, Same, Joined}
use career_pilot_ai.Dedup.Forest.Union.{IsUnion, union-IsUnion, new-IsValid}
use career_pilot_ai.Dedup.Cluster.{Settings, initial, compare_pair, clustered}
use career_pilot_ai.Dedup.Cluster.Merging.{IsStep, IsApart, IsJustified, compare_pair-IsJustified}
use career_pilot_ai.Dedup.Cluster.Sources.{clustered-same_source}
use career_pilot_ai.Dedup.Groups.{groups, Cluster, cluster_postings}
use career_pilot_ai.Dedup.Groups.Members.{IsGrouping}
use career_pilot_ai.Dedup.Groups.Grouping.{groups-IsGrouping}

abbrev three : UnionFind
three = new (1 ∷ 2 ∷ 3 ∷ [])

one_there : In 1 three.items
one_there = unfold new keys in here refl

two_there : In 2 three.items
two_there = unfold new keys in there (here refl)

union-IsUnion_example : IsUnion 1 2 three (union 1 2 three)
union-IsUnion_example = union-IsUnion 1 2 three (new-IsValid (1 ∷ 2 ∷ 3 ∷ [])) one_there two_there

groups-IsGrouping_example : IsGrouping three.parent (λ i. In i three.items) (groups three)
groups-IsGrouping_example = groups-IsGrouping three (new-IsValid (1 ∷ 2 ∷ 3 ∷ []))

abbrev candidate : ℕ → String → String → Option String → DedupCandidate
candidate id source external location = record {
  id = id;
  source_name = source;
  external_id = external;
  company_key = none;
  title_normalized = "engineer";
  canonical_url = none;
  simhash = none;
  posted_at = none;
  description_length = 10;
  location_key = location;
  is_ats_native = false;
}

abbrev settings : Settings
settings = record {
  simhash_hamming_max = 3;
  semantic_threshold = 9400;
  max_postings_per_url = 8;
  blocking_key = λ c. "engineer";
  hamming = λ a b. 64;
  similarity = λ a b. none;
}

-- Cairo, and Dubai, with two of no known location between them
abbrev postings : List DedupCandidate
postings =
    candidate 1 "a" "x" (some "cairo")
    ∷ candidate 2 "b" "x" none
    ∷ candidate 3 "a" "y" none
    ∷ candidate 4 "c" "x" (some "dubai")
    ∷ []

-- One cluster holds a posting in Cairo and one in Dubai: the third merge forgets the location.
two_cities :
    map (λ (c : Cluster). c.member_ids) (cluster_postings settings postings)
    ≡ (1 ∷ 2 ∷ 3 ∷ 4 ∷ []) ∷ []
unfolding cluster_postings total canonical_pick
two_cities = refl

compare_pair-IsJustified_example :
    (IsStep (Same (initial postings).uf) (initial postings) (
        compare_pair settings
          (candidate 1 "a" "x" (some "cairo"))
          (candidate 2 "b" "x" none)
          (initial postings))
      × IsApart settings
          (candidate 1 "a" "x" (some "cairo"))
          (candidate 2 "b" "x" none)
          (initial postings))
    ⊎ (IsStep (Joined (initial postings).uf 1 2) (initial postings) (
          compare_pair settings
            (candidate 1 "a" "x" (some "cairo"))
            (candidate 2 "b" "x" none)
            (initial postings))
        × IsJustified settings
            (candidate 1 "a" "x" (some "cairo"))
            (candidate 2 "b" "x" none)
            (initial postings))
compare_pair-IsJustified_example =
    compare_pair-IsJustified settings (candidate 1 "a" "x" (some "cairo"))
      (candidate 2 "b" "x" none) (initial postings) valid (unfold initial new keys in here refl)
      (unfold initial new keys in there (here refl))
  where
    valid : IsValid (initial postings).uf
    valid = unfold initial in new-IsValid (1 ∷ 2 ∷ 3 ∷ 4 ∷ [])

abbrev reposted : List DedupCandidate
reposted = candidate 1 "a" "x" (some "cairo") ∷ candidate 2 "a" "x" (some "dubai") ∷ []

clustered-same_source_example : Same (clustered settings reposted).uf 1 2
clustered-same_source_example =
    clustered-same_source settings reposted (candidate 1 "a" "x" (some "cairo"))
      (candidate 2 "a" "x" (some "dubai")) (here refl) (there (here refl)) refl refl

abbrev one_word : String → List String
one_word s = s ∷ []

abbrev first_or_second : String → ℕ
first_or_second s = if str_eq s "first" then 9223372036854775809 else 6

signed_hash_test :
    to_signed (simhash64 one_word first_or_second "first" 5) ≡ negsuc 9223372036854775806
unfolding simhash64 to_signed
signed_hash_test = refl

distance_test :
    hamming
      (simhash64 one_word first_or_second "first" 5)
      (simhash64 one_word first_or_second "second" 5)
    ≡ 4
unfolding simhash64 hamming
distance_test = refl

simhash64-to_signed_example :
    let a = simhash64 one_word first_or_second "first" 5 in
    let b = simhash64 one_word first_or_second "second" 5 in
    ((i : ℕ)
      → i < 64
      → let (added, taken) = weigh (shift_by i (hashes_of one_word first_or_second "first" 5)) in
        bit_of i a ≡ ltb taken added)
    × IsBigint (to_signed a)
    × (from_signed (to_signed a) ≡ a)
    × (hamming a b ≤ 64)
    × ((hamming a b ≡ 0) ↔ (a ≡ b))
simhash64-to_signed_example = simhash64-to_signed one_word first_or_second "first" "second" 5
