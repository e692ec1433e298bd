-- ===== src/Dedup.antt =====
-- backend/app/domain/dedup/clustering.py: the tests that a merge by text rests on, and the posting
-- that a group sends a user to. Ids are numbers in the order of their texts.
pub mod Hashes
pub mod Pick
pub mod Forest
pub mod Cluster
pub mod Groups
use career_pilot_ai.Prelude.{
  ℕ, String, Bool, true, false, ◌&&◌, ◌||◌, Option, none, some, List, [], ◌∷◌, ltb, ◌==◌, min,
  if◌then◌else◌, str_eq,
}

pub record DedupCandidate : Type 0 where
  pub id : ℕ
  pub source_name : String
  pub external_id : String
  pub company_key : Option String
  pub title_normalized : String
  pub canonical_url : Option String
  pub simhash : Option ℕ
  pub posted_at : Option ℕ
  pub description_length : ℕ
  pub location_key : Option String
  pub is_ats_native : Bool

abbrev pub min_simhash_chars : ℕ
min_simhash_chars = 400

-- an absent or empty location never blocks a merge
unfoldable pub locations_compatible : Option String → Option String → Bool
locations_compatible none b = true
locations_compatible (some a) none = true
locations_compatible (some a) (some b) = str_eq a "" || str_eq b "" || str_eq a b

unfoldable pub is_short_pair : DedupCandidate → DedupCandidate → Bool
is_short_pair a b = ltb (min a.description_length b.description_length) min_simhash_chars

-- `not c.is_ats_native` as a number
abbrev pub native_rank : Bool → ℕ
native_rank true = 0
native_rank false = 1

-- an unknown date is `inf`
abbrev pub same_date : Option ℕ → Option ℕ → Bool
same_date none none = true
same_date (some a) (some b) = a == b
same_date _ _ = false

abbrev pub is_earlier : Option ℕ → Option ℕ → Bool
is_earlier none b = false
is_earlier (some a) none = true
is_earlier (some a) (some b) = ltb a b

-- the order of the key of `sorted`
pub is_preferred : DedupCandidate → DedupCandidate → Bool
is_preferred a b =
    let m = native_rank a.is_ats_native in
    let n = native_rank b.is_ats_native in
    ltb m n
    || (m == n
        && (ltb b.description_length a.description_length
            || (a.description_length == b.description_length
                && (is_earlier a.posted_at b.posted_at
                    || (same_date a.posted_at b.posted_at && ltb a.id b.id)))))

-- `sorted(members, key=...)[0]` of a list that begins with `best`
unfoldable pub canonical_pick : DedupCandidate → List DedupCandidate → DedupCandidate
unfolding is_preferred
canonical_pick best [] = best
canonical_pick best (c ∷ cs) = canonical_pick (if is_preferred c best then c else best) cs
