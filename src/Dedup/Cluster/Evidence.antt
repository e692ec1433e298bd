-- ===== src/Dedup/Cluster/Evidence.antt =====
-- The texts that `cluster_postings` of backend/app/domain/dedup/clustering.py takes for one job's.
use career_pilot_ai.Prelude.{
  ◌≤◌, ◌<◌, leb, ltb, Option, some, none, arith, eq_iff, ◌||◌, ℕ, ◌≡◌, refl, inl, inr, Bool, true,
  false, if◌then◌else◌, Bool-cases, str_eq,
}
use career_pilot_ai.Dedup.{DedupCandidate, is_short_pair}
use career_pilot_ai.Dedup.Cluster.{Settings, is_near, is_above}

-- The textual evidence for one job: of a short pair the same title, else near hashes or a high
-- similarity.
abbrev pub is_evident : Settings → DedupCandidate → DedupCandidate → Bool
is_evident settings a b =
    if is_short_pair a b
    then str_eq a.title_normalized b.title_normalized
    else is_near settings a.simhash b.simhash
      || is_above settings.semantic_threshold (settings.similarity a.id b.id)

-- The same, by what the postings hold.
pub data IsEvident (settings : Settings) (a b : DedupCandidate) : Type 0 where
  same_title :
      is_short_pair a b ≡ true → a.title_normalized ≡ b.title_normalized → IsEvident settings a b
  near_hashes :
      {x y : ℕ}
      → is_short_pair a b ≡ false
      → a.simhash ≡ some x
      → b.simhash ≡ some y
      → settings.hamming x y ≤ settings.simhash_hamming_max
      → IsEvident settings a b
  alike :
      {score : ℕ}
      → is_short_pair a b ≡ false
      → settings.similarity a.id b.id ≡ some score
      → settings.semantic_threshold < score
      → IsEvident settings a b

pub is_evident-IsEvident :
    (settings : Settings) (a b : DedupCandidate)
    → is_evident settings a b ≡ true
    → IsEvident settings a b
is_evident-IsEvident settings a b h = elim (Bool-cases (is_short_pair a b)) [
  | inl e ↦ same_title e ((eq_iff a.title_normalized b.title_normalized).0 (rw e at h))
  | inr e ↦ long a.simhash b.simhash (settings.similarity a.id b.id) e refl refl refl (rw e at h)
]
  where
    scored :
        (o : Option ℕ)
        → is_short_pair a b ≡ false
        → settings.similarity a.id b.id ≡ o
        → is_above settings.semantic_threshold o ≡ true
        → IsEvident settings a b
    scored none e r k = absurd cc
    scored (some score) e r k = alike e r (ground (arith, k))

    long :
        (x y o : Option ℕ)
        → is_short_pair a b ≡ false
        → a.simhash ≡ x
        → b.simhash ≡ y
        → settings.similarity a.id b.id ≡ o
        → (is_near settings a.simhash b.simhash
            || is_above settings.semantic_threshold (settings.similarity a.id b.id))
          ≡ true
        → IsEvident settings a b
    long (some x) (some y) o e p q r k =
        elim (Bool-cases (leb (settings.hamming x y) settings.simhash_hamming_max)) [
          | inl n ↦ near_hashes e p q (ground (arith, n))
          | inr n ↦ scored o e r (rw n at (rw (p, q, r) at k))
        ]
    long none y o e p q r k = scored o e r (rw (p, r) at k)
    long (some x) none o e p q r k = scored o e r (rw (p, q, r) at k)

pub IsEvident-is_evident :
    (settings : Settings) (a b : DedupCandidate)
    → IsEvident settings a b
    → is_evident settings a b ≡ true
IsEvident-is_evident settings a b (same_title e h) =
    rw e ((eq_iff a.title_normalized b.title_normalized).1 h)
IsEvident-is_evident settings a b (near_hashes {x = x} {y = y} e p q h) =
    let k : leb (settings.hamming x y) settings.simhash_hamming_max ≡ true = ground (arith, h) in
    rw e (rw (p, q) (rw k refl))
IsEvident-is_evident settings a b (alike {score = score} e p h) =
    let k : ltb settings.semantic_threshold score ≡ true = ground (arith, h) in
    rw e (rw p (ground (arith, k)))
