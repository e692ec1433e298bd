-- ===== src/Dedup/Forest/Partition.antt =====
-- A forest as a partition: which items are in one set, and what `union` does to the sets.
use career_pilot_ai.Prelude.{
  ℕ, zero, suc, ◌+◌, ◌≤◌, ◌<◌, ◌≡◌, ◌↔◌, refl, sym, ap, ◌∙◌, subst, ◌⊎◌, inl, inr, true, false,
  List, [], ◌∷◌, arith, ◌==◌, ==_iff, ==_refl, if◌then◌else◌, Bool-cases, In, here, there,
}
use career_pilot_ai.Dedup.Forest.{UnionFind, set, total, fuel, root_of, compress, find, link}
use career_pilot_ai.Dedup.Forest.Roots.{
  Root, top, up, Root-unique, unique_at, ==-false, IsForest, root_of-Root, set-Root, set-IsForest,
}

-- the parents are items, sizes are not 0, and they grow towards the roots
pub record IsValid (uf : UnionFind) : Type 0 where
  pub forest : IsForest (total uf.size uf.items) uf.parent uf.size
  pub positive : (i : ℕ) → 0 < uf.size i
  pub closed : (i : ℕ) → In i uf.items → In (uf.parent i) uf.items

pub Root-In :
    {p : ℕ → ℕ} (items : List ℕ) {i r : ℕ}
    → ((j : ℕ) → In j items → In (p j) items)
    → Root p i r
    → In i items
    → In r items
Root-In items c (top e) m = m
Root-In items {i} c (up n) m = Root-In items c n (c i m)

-- two forests of which the second has the roots of the first
abbrev pub Keeps : (ℕ → ℕ) → (ℕ → ℕ) → Type 0
Keeps p q = (i r : ℕ) → Root p i r → Root q i r

step_up : {p : ℕ → ℕ} {i r : ℕ} → Root p i r → (p i == r) ≡ false → Root p (p i) r
step_up (top e) h = absurd (==-false _ _ h e)
step_up (up m) h = m

module _ (size : ℕ → ℕ) (bound : ℕ) where
  compress-Keeps :
      (n root i : ℕ) (p : ℕ → ℕ)
      → IsForest bound p size
      → Root p i root
      → IsForest bound (compress n root i p) size × Keeps p (compress n root i p)
  unfolding compress
  compress-Keeps zero root i p f m = (f, (λ j r n. n))
  compress-Keeps (suc n) root i p f m = elim (Bool-cases (p i == root)) [
    | inl e ↦ rw (e, compress) (f, (λ j r k. k))
    | inr e ↦
        let below = set-Root f i root m (step_up m e) in
        let (g, k) = compress-Keeps n root (p i) (set i root p) (set-IsForest f i root m) below in
        rw (e, compress) (g, (λ j r q. k j r (set-Root f i root m q)))
  ]

module _ (items : List ℕ) where
  compress-closed :
      (n root i : ℕ) (p : ℕ → ℕ)
      → In root items
      → ((j : ℕ) → In j items → In (p j) items)
      → (j : ℕ) → In j items
      → In (compress n root i p j) items
  unfolding compress
  compress-closed zero root i p m c = c
  compress-closed (suc n) root i p m c = elim (Bool-cases (p i == root)) [
    | inl e ↦ rw (e, compress) c
    | inr e ↦
        rw (e, compress)
          (compress-closed n root (p i) (set i root p) m
            (λ j q. elim (Bool-cases (j == i)) [ inl h ↦ rw h m | inr h ↦ rw h (c j q) ]))
  ]

-- `find` finds the root, and keeps the roots of all
pub find-Root : (i : ℕ) (uf : UnionFind) → IsValid uf → Root uf.parent i (find i uf).0
unfolding find
find-Root i uf v = root_of-Root v.forest (fuel uf) i (omega arith) (omega arith)

pub find-Keeps :
    (i : ℕ) (uf : UnionFind)
    → IsValid uf
    → In i uf.items
    → IsValid (find i uf).1 × Keeps uf.parent (find i uf).1.parent
unfolding find
find-Keeps i uf v m =
    let r = root_of-Root v.forest (fuel uf) i (omega arith) (omega arith) in
    let (f, k) =
      compress-Keeps uf.size (total uf.size uf.items) (fuel uf) (root_of (fuel uf) uf.parent i) i
        uf.parent v.forest r in
    (
      record {
        forest = f;
        positive = v.positive;
        closed =
            compress-closed uf.items (fuel uf) _ i uf.parent (Root-In uf.items v.closed r m)
              v.closed;
      },
      k,
    )

total-In : (size : ℕ → ℕ) (i : ℕ) (items : List ℕ) → In i items → size i ≤ total size items
unfolding total
total-In size i [] m = elim m [ ]
total-In size i (j ∷ is) (here e) = omega (arith, ap size e)
total-In size i (j ∷ is) (there m) = omega (arith, total-In size i is m)

total_mono : (s t : ℕ → ℕ) (items : List ℕ) → ((i : ℕ) → s i ≤ t i) → total s items ≤ total t items
unfolding total
total_mono s t [] h = omega arith
total_mono s t (i ∷ is) h = omega (arith, h i, total_mono s t is h)

-- the root after `rb` was put below `ra`
abbrev pub moved : ℕ → ℕ → ℕ → ℕ
moved ra rb s = if s == rb then ra else s

module _ (ra rb : ℕ) (uf : UnionFind) (v : IsValid uf) (ta : uf.parent ra ≡ ra)
    (tb : uf.parent rb ≡ rb) (ma : In ra uf.items) (apart : (ra == rb) ≡ false) where
  pub link-Root : {i s : ℕ} → Root uf.parent i s → Root (link ra rb uf).parent i (moved ra rb s)
  unfolding link
  link-Root {i} {s} (top e) = elim (Bool-cases (i == rb)) [
    | inl h ↦ rw h (up (rw h (top (rw apart ta))))
    | inr h ↦ rw h (top (rw h e))
  ]
  link-Root {i} {s} (up m) = elim (Bool-cases (i == rb)) [
    | inl h ↦
        let same : i ≡ rb = (==_iff i rb).0 h in
        let at : s ≡ rb = unique_at (up m) (top tb) same in
        rw at (rw (==_refl rb) (up (rw h (top (rw apart ta)))))
    | inr h ↦ up (rw h (link-Root m))
  ]

  abbrev linked_size : ℕ → ℕ
  linked_size = set ra (uf.size ra + uf.size rb) uf.size

  linked_size-ge : (i : ℕ) → uf.size i ≤ linked_size i
  linked_size-ge i = elim (Bool-cases (i == ra)) [
    | inl h ↦ let same : i ≡ ra = (==_iff i ra).0 h in rw h (omega (arith, ap uf.size same))
    | inr h ↦ rw h (omega arith)
  ]

  linked_total : uf.size ra + uf.size rb ≤ total linked_size uf.items
  linked_total =
      let at : linked_size ra ≡ uf.size ra + uf.size rb = rw (==_refl ra) refl in
      omega (arith, at, total-In linked_size ra uf.items ma)

  grows_below :
      (i : ℕ)
      → (uf.parent i ≡ i)
        ⊎ ((uf.size i < uf.size (uf.parent i)) × (uf.size (uf.parent i) ≤ total uf.size uf.items))
      → (uf.parent i ≡ i)
        ⊎ ((linked_size i < linked_size (uf.parent i))
            × (linked_size (uf.parent i) ≤ total linked_size uf.items))
  grows_below i (inl t) = inl t
  grows_below i (inr (g, b)) = elim (Bool-cases (i == ra)) [
    | inl h ↦ inl ((ap uf.parent ((==_iff i ra).0 h) ∙ ta) ∙ sym ((==_iff i ra).0 h))
    | inr h ↦
        let same : linked_size i ≡ uf.size i = rw h refl in
        inr (
          omega (arith, same, g, linked_size-ge (uf.parent i)),
          at_most (Bool-cases (uf.parent i == ra)),
        )
  ]
    where
      at_most :
          ((uf.parent i == ra) ≡ true) ⊎ ((uf.parent i == ra) ≡ false)
          → linked_size (uf.parent i) ≤ total linked_size uf.items
      at_most (inl h) = rw h linked_total
      at_most (inr h) =
          rw h (omega (arith, b, total_mono uf.size linked_size uf.items linked_size-ge))

  pub link-IsValid : IsValid (link ra rb uf)
  unfolding link
  link-IsValid = record {
    forest = record {
      grows = λ i. elim (Bool-cases (i == rb)) [
        | inl h ↦ rw h (inr (linked_below i h, rw (==_refl ra) linked_total))
        | inr h ↦ rw h (grows_below i (v.forest.grows i))
      ];
    };
    positive = λ i. omega (arith, linked_size-ge i, v.positive i);
    closed = λ i m. elim (Bool-cases (i == rb)) [ inl h ↦ rw h ma | inr h ↦ rw h (v.closed i m) ];
  }
    where
      linked_below : (i : ℕ) → (i == rb) ≡ true → linked_size i < linked_size ra
      linked_below i h =
          let same : i ≡ rb = (==_iff i rb).0 h in
          let other : (i == ra) ≡ false = ground (arith, same, apart) in
          rw (other, ==_refl ra) (omega (arith, ap uf.size same, v.positive ra))

-- In one set: with one root.
abbrev pub Same : UnionFind → ℕ → ℕ → Type 0
Same uf i j = (r : ℕ) × Root uf.parent i r × Root uf.parent j r

-- what the sets are after `a` and `b` were joined
abbrev pub Joined : UnionFind → ℕ → ℕ → ℕ → ℕ → Type 0
Joined uf a b i j = Same uf i j ⊎ ((Same uf i a × Same uf b j) ⊎ (Same uf i b × Same uf a j))

moved_iff :
    (ra rb s t : ℕ)
    → (moved ra rb s ≡ moved ra rb t) ↔ ((s ≡ t) ⊎ (((s ≡ ra) × (rb ≡ t)) ⊎ ((s ≡ rb) × (ra ≡ t))))
moved_iff ra rb s t = ground arith

module _ (a b ra rb : ℕ) (uf : UnionFind) (qf : UnionFind) (v : IsValid uf)
    (aa : Root uf.parent a ra) (bb : Root uf.parent b rb)
    (to : (i s : ℕ) → Root uf.parent i s → Root qf.parent i (moved ra rb s)) where
  roots : (i : ℕ) → (s : ℕ) × Root uf.parent i s
  roots i = ((find i uf).0, find-Root i uf v)

  pub Same-Joined : (i j : ℕ) → Same qf i j ↔ Joined uf a b i j
  Same-Joined i j =
      let (s, ms) = roots i in
      let (t, mt) = roots j in
      (
        (λ q.
            forth s t ms mt (
              (moved_iff ra rb s t).0 (Root-unique (to i s ms) q.1 ∙ Root-unique q.2 (to j t mt)))),
        (λ q. back s t ms mt ((moved_iff ra rb s t).1 (roots_joined s t ms mt q))),
      )
    where
      forth :
          (s t : ℕ)
          → Root uf.parent i s
          → Root uf.parent j t
          → ((s ≡ t) ⊎ (((s ≡ ra) × (rb ≡ t)) ⊎ ((s ≡ rb) × (ra ≡ t))))
          → Joined uf a b i j
      forth s t ms mt (inl e) = inl (t, subst (Root uf.parent i) e ms, mt)
      forth s t ms mt (inr (inl (e, f))) = inr (
          inl (
            (ra, subst (Root uf.parent i) e ms, aa),
            (rb, bb, subst (Root uf.parent j) (sym f) mt),
          ))
      forth s t ms mt (inr (inr (e, f))) = inr (
          inr (
            (rb, subst (Root uf.parent i) e ms, bb),
            (ra, aa, subst (Root uf.parent j) (sym f) mt),
          ))

      back :
          (s t : ℕ)
          → Root uf.parent i s
          → Root uf.parent j t
          → moved ra rb s ≡ moved ra rb t
          → Same qf i j
      back s t ms mt e = (moved ra rb t, subst (Root qf.parent i) e (to i s ms), to j t mt)

      roots_joined :
          (s t : ℕ)
          → Root uf.parent i s
          → Root uf.parent j t
          → Joined uf a b i j
          → (s ≡ t) ⊎ (((s ≡ ra) × (rb ≡ t)) ⊎ ((s ≡ rb) × (ra ≡ t)))
      roots_joined s t ms mt (inl (r, m, n)) = inl (Root-unique ms m ∙ Root-unique n mt)
      roots_joined s t ms mt (inr (inl ((r, m, n), (q, k, l)))) =
          inr (inl (Root-unique ms m ∙ Root-unique n aa, Root-unique bb k ∙ Root-unique l mt))
      roots_joined s t ms mt (inr (inr ((r, m, n), (q, k, l)))) =
          inr (inr (Root-unique ms m ∙ Root-unique n bb, Root-unique aa k ∙ Root-unique l mt))
