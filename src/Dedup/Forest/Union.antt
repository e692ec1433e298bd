-- ===== src/Dedup/Forest/Union.antt =====
-- `union` joins two sets of the partition and leaves the others.
use career_pilot_ai.Prelude.{
  ℕ, ◌≡◌, ◌↔◌, refl, sym, ◌∙◌, subst, inl, inr, Bool, true, false, List, arith, ◌==◌, ==_iff,
  if◌then◌else◌, Bool-cases, In,
}
use career_pilot_ai.Dedup.Forest.{UnionFind, new, find, link, union}
use career_pilot_ai.Dedup.Forest.Roots.{Root, Root-top, Root-unique}
use career_pilot_ai.Dedup.Forest.Partition.{
  IsValid, Root-In, find-Root, find-Keeps, moved, link-Root, link-IsValid, Same, Joined,
  Same-Joined,
}

-- What a union leaves: a forest whose sets are the joined ones, and whether it joined two sets.
pub record IsUnion (a b : ℕ) (uf : UnionFind) (o : Bool × UnionFind) : Type 0 where
  pub valid : IsValid o.1
  pub items : o.1.items ≡ uf.items
  pub sets : (i j : ℕ) → Same o.1 i j ↔ Joined uf a b i j
  pub changed : (o.0 ≡ false) ↔ Same uf a b

Joined-swap : (uf : UnionFind) (a b i j : ℕ) → Joined uf b a i j → Joined uf a b i j
Joined-swap uf a b i j (inl s) = inl s
Joined-swap uf a b i j (inr (inl s)) = inr (inr s)
Joined-swap uf a b i j (inr (inr s)) = inr (inl s)

module _ (a b : ℕ) (uf qf : UnionFind) (v : IsValid uf) (w : IsValid qf)
    (same_items : qf.items ≡ uf.items) (ma : In a uf.items) (mb : In b uf.items)
    (keeps : (i r : ℕ) → Root uf.parent i r → Root qf.parent i r) (ra rb : ℕ)
    (aa : Root uf.parent a ra) (bb : Root uf.parent b rb) where
  ra-In : In ra qf.items
  ra-In = subst (In ra) (sym same_items) (Root-In uf.items v.closed aa ma)

  rb-In : In rb qf.items
  rb-In = subst (In rb) (sym same_items) (Root-In uf.items v.closed bb mb)

  ta : qf.parent ra ≡ ra
  ta = Root-top (keeps a ra aa)

  tb : qf.parent rb ≡ rb
  tb = Root-top (keeps b rb bb)

  already : (ra == rb) ≡ true → IsUnion a b uf (false, qf)
  already e =
      let same : ra ≡ rb = (==_iff ra rb).0 e in
      record {
        valid = w;
        items = same_items;
        sets =
            Same-Joined a b ra rb uf qf v aa bb
              (λ i s m. subst (Root qf.parent i) (unmoved same s) (keeps i s m));
        changed = ((λ _. (rb, subst (Root uf.parent a) same aa, bb)), (λ _. refl));
      }
    where
      unmoved : ra ≡ rb → (s : ℕ) → s ≡ moved ra rb s
      unmoved q s = ground (arith, q)

  differ : (ra == rb) ≡ false → ((true ≡ false) → Same uf a b) × (Same uf a b → true ≡ false)
  differ e = ((λ h. absurd cc), (λ (r, m, n). absurd (apart (Root-unique aa m ∙ Root-unique n bb))))
    where
      apart : ¬ (ra ≡ rb)
      apart q = ground (arith, q, e)

  below_a : (ra == rb) ≡ false → IsUnion a b uf (true, link ra rb qf)
  below_a e = record {
    valid = link-IsValid ra rb qf w ta tb ra-In e;
    items = unfold link in same_items;
    sets =
        Same-Joined a b ra rb uf (link ra rb qf) v aa bb
          (λ i s m. link-Root ra rb qf w ta tb ra-In e (keeps i s m));
    changed = differ e;
  }

  below_b : (ra == rb) ≡ false → IsUnion a b uf (true, link rb ra qf)
  below_b e =
      let f : (rb == ra) ≡ false = ground (arith, e) in
      record {
        valid = link-IsValid rb ra qf w tb ta rb-In f;
        items = unfold link in same_items;
        sets = λ i j.
            let (forth, back) =
              Same-Joined b a rb ra uf (link rb ra qf) v bb aa
                (λ k s m. link-Root rb ra qf w tb ta rb-In f (keeps k s m)) i j in
            ((λ s. Joined-swap uf a b i j (forth s)), (λ s. back (Joined-swap uf b a i j s)));
        changed = differ e;
      }

  joined :
      (less : Bool)
      → IsUnion a b uf
          (if ra == rb then (false, qf) else (true, if less then link rb ra qf else link ra rb qf))
  joined less = elim (Bool-cases (ra == rb)) [
    | inl e ↦ rw e (already e)
    | inr e ↦ rw e (by_size less e)
  ]
    where
      by_size :
          (l : Bool)
          → (ra == rb) ≡ false
          → IsUnion a b uf (true, if l then link rb ra qf else link ra rb qf)
      by_size true e = below_b e
      by_size false e = below_a e

-- A union of two items of a valid forest leaves a valid forest of the same items. Two items are in
-- one set of it exactly where they were before, or one was with `a` and the other with `b`; and it
-- reports no change exactly where `a` and `b` were in one set.
pub union-IsUnion :
    (a b : ℕ) (uf : UnionFind)
    → IsValid uf
    → In a uf.items
    → In b uf.items
    → IsUnion a b uf (union a b uf)
unfolding union
union-IsUnion a b uf v ma mb =
    let (v', k) = find-Keeps a uf v ma in
    let mb' : In b (find a uf).1.items = unfold find in mb in
    let (w, l) = find-Keeps b (find a uf).1 v' mb' in
    let own : (find b uf).0 ≡ (find b (find a uf).1).0 =
      Root-unique (k b _ (find-Root b uf v)) (find-Root b (find a uf).1 v') in
    joined a b uf (find b (find a uf).1).1 v w (unfold find in refl) ma mb
      (λ i r m. l i r (k i r m)) (find a uf).0 (find b (find a uf).1).0 (find-Root a uf v)
      (subst (Root uf.parent b) own (find-Root b uf v)) _

-- At the start every item is a set of its own.
pub new-IsValid : (items : List ℕ) → IsValid (new items)
unfolding new
new-IsValid items = record {
  forest = record { grows = λ i. inl refl };
  positive = λ i. omega arith;
  closed = λ i m. m;
}
