-- ===== src/Scoring.antt =====
-- backend/app/domain/scoring/percentile.py. A score is a number of the pool's unit; a percentile is
-- in hundredths of a percent, as it is rounded to two places.
pub mod Rounding
pub mod Percentiles
pub mod Aggregate
pub mod Subscores
use career_pilot_ai.Prelude.{
  ℕ, zero, suc, ◌+◌, ◌-◌, ◌*◌, ◌/◌, ◌%◌, max, String, Bool, Option, none, some, List, [], ◌∷◌, map,
  ltb, leb, ◌==◌, if◌then◌else◌, length,
}

pub record Percentile : Type 0 where
  pub value : ℕ
  pub pool_size : ℕ
  pub rank : ℕ

pub data Band : Type 0 where
  top_1 top_5 top_10 top_25 top_half lower_half : Band

unfoldable pub band : ℕ → Band
band value =
    if leb 9900 value
    then top_1
    else if leb 9500 value
    then top_5
    else if leb 9000 value
    then top_10
    else if leb 7500 value
    then top_25
    else if leb 5000 value
    then top_half
    else lower_half

-- `sorted`
pub insert : ℕ → List ℕ → List ℕ
insert x [] = x ∷ []
insert x (y ∷ ys) = let rest = insert x ys in if leb x y then x ∷ y ∷ ys else y ∷ rest

unfoldable pub sorted : List ℕ → List ℕ
unfolding insert
sorted [] = []
sorted (x ∷ xs) = insert x (sorted xs)

-- `bisect.bisect_left` and `bisect.bisect_right`: where `x` would go in a sorted list
unfoldable pub bisect_left : List ℕ → ℕ → ℕ
bisect_left [] x = 0
bisect_left (y ∷ ys) x = let rest = bisect_left ys x in if ltb y x then suc rest else 0

unfoldable pub bisect_right : List ℕ → ℕ → ℕ
bisect_right [] x = 0
bisect_right (y ∷ ys) x = let rest = bisect_right ys x in if leb y x then suc rest else 0

-- `round(n / d)`, half to even
unfoldable pub round_div : ℕ → ℕ → ℕ
round_div n d =
    let q = n / d in
    let twice = 2 * (n % d) in
    if ltb twice d then q else if ltb d twice then suc q else if q % 2 == 0 then q else suc q

unfoldable pub percentile_of : ℕ → List ℕ → Percentile
unfolding sorted bisect_left bisect_right round_div
percentile_of score [] = record { value = 0; pool_size = 0; rank = 0 }
percentile_of score (s ∷ ss) =
    let ordered = sorted (s ∷ ss) in
    let below = bisect_left ordered score in
    record {
      value = round_div (10000 * below) (length ordered);
      pool_size = length ordered;
      rank = max (length ordered - bisect_right ordered score + 1) 1;
    }

unfoldable pub rank_matches : List ℕ → List Percentile
unfolding percentile_of
rank_matches scores = map (λ score. percentile_of score scores) scores
