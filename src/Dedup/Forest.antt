-- ===== src/Dedup/Forest.antt =====
-- backend/app/domain/dedup/clustering.py, `UnionFind`. A dict over the items is a function, and the
-- items are in the order of the dict. The sum of the sizes is enough fuel for the two loops of
-- `find`, as sizes grow on the way to a root.
pub mod Roots
pub mod Partition
pub mod Union
use career_pilot_ai.Prelude.{
  ℕ, zero, suc, ◌+◌, Bool, true, false, List, [], ◌∷◌, ◌++◌, ltb, ◌==◌, if◌then◌else◌, any,
}

pub record UnionFind : Type 0 where
  pub items : List ℕ
  pub parent : ℕ → ℕ
  pub size : ℕ → ℕ

abbrev pub set : ℕ → ℕ → (ℕ → ℕ) → ℕ → ℕ
set k v f j = if j == k then v else f j

-- the keys of a dict built from a list: first occurrences
unfoldable pub keys : List ℕ → List ℕ → List ℕ
keys seen [] = []
keys seen (x ∷ xs) = if any (λ y. y == x) seen then keys seen xs else x ∷ keys (x ∷ seen) xs

unfoldable pub new : List ℕ → UnionFind
unfolding keys
new items = record { items = keys [] items; parent = λ i. i; size = λ i. 1 }

unfoldable pub total : (ℕ → ℕ) → List ℕ → ℕ
total size [] = 0
total size (i ∷ is) = size i + total size is

abbrev pub fuel : UnionFind → ℕ
fuel uf = suc (total uf.size uf.items)

-- `while parent[root] != root: root = parent[root]`
pub root_of : ℕ → (ℕ → ℕ) → ℕ → ℕ
root_of zero p i = i
root_of (suc n) p i = elim (p i == i) [ true ↦ i | false ↦ root_of n p (p i) ]

-- `while parent[item] != root: parent[item], item = root, parent[item]`
pub compress : ℕ → ℕ → ℕ → (ℕ → ℕ) → ℕ → ℕ
compress zero root i p = p
compress (suc n) root i p = elim (p i == root) [
  | true ↦ p
  | false ↦ compress n root (p i) (set i root p)
]

-- The root, and the forest with the path to it compressed.
unfoldable pub find : ℕ → UnionFind → ℕ × UnionFind
unfolding root_of compress
find i uf =
    let root = root_of (fuel uf) uf.parent i in
    (root, record uf { parent = compress (fuel uf) root i uf.parent })

-- `rb` below `ra`
pub link : ℕ → ℕ → UnionFind → UnionFind
link ra rb uf = record uf {
  parent = set rb ra uf.parent;
  size = set ra (uf.size ra + uf.size rb) uf.size;
}

unfoldable pub union : ℕ → ℕ → UnionFind → Bool × UnionFind
unfolding link
union a b uf =
    let (ra, first) = find a uf in
    let (rb, second) = find b first in
    if ra == rb then (false, second) else (
      true,
      if ltb (second.size ra) (second.size rb) then link rb ra second else link ra rb second,
    )
