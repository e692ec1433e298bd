-- ===== src/Dedup/Cluster/Sources.antt =====
-- All stages of `cluster_postings`, and the postings of one source key.
use career_pilot_ai.Prelude.{
  members, ℕ, ◌≡◌, refl, ap, subst, ◌⊎◌, inl, inr, Bool, true, ◌==◌, ==_iff, List, [], ◌∷◌, map,
  keep_if, any, Bool-cases, In, here, there, Some, All, All-mono, eq_iff, length, leb,
}
use career_pilot_ai.Dedup.{DedupCandidate}
use career_pilot_ai.Dedup.Forest.{keys, new}
use career_pilot_ai.Dedup.Forest.Partition.{IsValid, Same}
use career_pilot_ai.Dedup.Forest.Union.{new-IsValid}
use career_pilot_ai.Dedup.Cluster.{
  Clustering, exact_key, canonical_url, Settings, same_source_key, same_url, has_url, group_from,
  exact_stage, url_stage, initial, clustered,
}
use career_pilot_ai.Dedup.Cluster.Grouped.{group_from-All, group_from-together}
use career_pilot_ai.Dedup.Cluster.Stages.{
  IsCoarser, IsCoarser-trans, Known, All-Known-moves, merge_groups-IsCoarser,
  compare_blocks-IsCoarser,
}

keys-In :
    (x : ℕ) (xs seen : List ℕ) → In x xs → (any (λ y. y == x) seen ≡ true) ⊎ In x (keys seen xs)
unfolding keys
keys-In x [] seen m = elim m [ ]
keys-In x (y ∷ ys) seen (here e) = elim (Bool-cases (any (λ z. z == y) seen)) [
  | inl h ↦ inl (subst (λ i. any (λ z. z == i) seen ≡ true) e h)
  | inr h ↦ rw h (inr (here e))
]
keys-In x (y ∷ ys) seen (there m) = elim (Bool-cases (any (λ z. z == y) seen)) [
  | inl h ↦ rw h (keys-In x ys seen m)
  | inr h ↦ rw h (elim (keys-In x ys (y ∷ seen) m) [
    | inl k ↦ elim (Bool-cases (y == x)) [
      | inl q ↦ inr (here ((==_iff y x).0 q))
      | inr q ↦ inl (rw q at k)
    ]
    | inr k ↦ inr (there k)
  ])
]

In-map :
    (c : DedupCandidate) (cs : List DedupCandidate)
    → In c cs
    → In c.id (map (λ (d : DedupCandidate). d.id) cs)
In-map c [] m = elim m [ ]
In-map c (d ∷ ds) (here e) = here (ap (λ (x : DedupCandidate). x.id) e)
In-map c (d ∷ ds) (there m) = there (In-map c ds m)

initial-Known : (cs : List DedupCandidate) (c : DedupCandidate) → In c cs → Known (initial cs) c
unfolding initial new keys
initial-Known cs c m =
    elim (keys-In c.id (map (λ (d : DedupCandidate). d.id) cs) [] (In-map c cs m)) [
      | inl h ↦ absurd cc
      | inr k ↦ k
    ]

initial-IsValid : (cs : List DedupCandidate) → IsValid (initial cs).uf
unfolding initial
initial-IsValid cs = new-IsValid (map (λ (d : DedupCandidate). d.id) cs)

keep_if-All :
    {A : Type 0} (P : A → Type 0) (p : A → Bool) (xs : List A) → All P xs → All P (keep_if p xs)
keep_if-All P p [] h = tt
keep_if-All P p (x ∷ xs) (h, hs) = elim (Bool-cases (p x)) [
  | inl e ↦ rw e (h, keep_if-All P p xs hs)
  | inr e ↦ rw e (keep_if-All P p xs hs)
]

module _ (settings : Settings) (cs : List DedupCandidate) where
  abbrev after_exact : Clustering
  after_exact = exact_stage cs (initial cs)

  abbrev after_url : Clustering
  after_url = url_stage settings.max_postings_per_url cs after_exact

  known : All (Known (initial cs)) cs
  known = All-mono cs (initial-Known cs) (members cs)

  exact :
      IsCoarser (initial cs) after_exact
      × ((x y : DedupCandidate)
          → Some (λ g. In x g × In y g) (group_from same_source_key cs [])
          → Same after_exact.uf x.id y.id)
  unfolding exact_stage
  exact =
      merge_groups-IsCoarser exact_key (group_from same_source_key cs []) (initial cs)
        (initial-IsValid cs) (group_from-All same_source_key (Known (initial cs)) cs [] known tt)

  by_url : IsCoarser after_exact after_url
  unfolding url_stage
  by_url =
      let k = All-Known-moves exact.0 cs known in
      (merge_groups-IsCoarser canonical_url _ after_exact exact.0.valid (
        keep_if-All (All (Known after_exact)) (λ g. leb (length g) settings.max_postings_per_url) _
          (group_from-All same_url (Known after_exact) (keep_if has_url cs) []
            (keep_if-All (Known after_exact) has_url cs k) tt))).0

  clustered-after_exact : IsCoarser after_exact (clustered settings cs)
  unfolding clustered
  clustered-after_exact =
      let k : All (Known after_url) cs =
        All-Known-moves (IsCoarser-trans exact.0 by_url) cs known in
      IsCoarser-trans by_url (
        compare_blocks-IsCoarser settings _ after_url by_url.valid
          (group_from-All _ (Known after_url) cs [] k tt))

  -- After all stages the forest is valid, and holds the items it was built on.
  pub clustered-IsCoarser : IsCoarser (initial cs) (clustered settings cs)
  clustered-IsCoarser = IsCoarser-trans exact.0 clustered-after_exact

  -- Two candidates of one source and external id are in one set of the forest after all stages.
  pub clustered-same_source :
      (a b : DedupCandidate)
      → In a cs
      → In b cs
      → a.source_name ≡ b.source_name
      → a.external_id ≡ b.external_id
      → Same (clustered settings cs).uf a.id b.id
  clustered-same_source a b ma mb es ee =
      clustered-after_exact.keeps a.id b.id
        (exact.1 a b (group_from-together same_source_key a b alike cs (own a) (own b) ma mb))
    where
      own : (c : DedupCandidate) → same_source_key c c ≡ true
      own c =
          rw ((eq_iff c.source_name c.source_name).1 refl)
            ((eq_iff c.external_id c.external_id).1 refl)

      alike : (z : DedupCandidate) → same_source_key z a ≡ same_source_key z b
      alike z = rw (es, ee) refl
