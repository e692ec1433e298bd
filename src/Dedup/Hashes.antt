-- ===== src/Dedup/Hashes.antt =====
-- backend/app/domain/dedup/simhash.py, on the words of a text: the pattern that splits it, case
-- folding and the digest of a shingle are arguments.
pub mod Stored
use career_pilot_ai.Prelude.{
  ℕ, zero, suc, ◌+◌, ◌-◌, ◌*◌, ◌/◌, ◌%◌, String, Bool, true, false, Option, none, some, List, [],
  ◌∷◌, ltb, leb, ◌==◌, if◌then◌else◌, is_empty, str_eq, take, length,
}
use Prim.Native.String.{◌++◌ as append_text}

-- 2 ^ 64 and 2 ^ 63
abbrev pub modulus : ℕ
modulus = 18446744073709551616

abbrev pub sign_bit : ℕ
sign_bit = 9223372036854775808

-- `" ".join(words)`
unfoldable pub join_words : List String → String
join_words [] = ""
join_words (w ∷ []) = w
join_words (w ∷ v ∷ ws) = append_text w (append_text " " (join_words (v ∷ ws)))

-- the windows of `size` words, from each place that has as many after it
unfoldable pub windows : ℕ → List String → List String
unfolding join_words
windows size [] = if size == 0 then "" ∷ [] else []
windows size (w ∷ ws) =
    let rest = windows size ws in
    if ltb (length (w ∷ ws)) size then [] else join_words (take size (w ∷ ws)) ∷ rest

unfoldable pub shingles : List String → ℕ → List String
unfolding windows
shingles tokens size =
    if ltb (length tokens) size
    then if is_empty tokens then [] else join_words tokens ∷ []
    else windows size tokens

-- `counts[gram] = counts.get(gram, 0) + 1`
unfoldable pub count_gram : String → List (String × ℕ) → List (String × ℕ)
count_gram gram [] = (gram, 1) ∷ []
count_gram gram ((g, n) ∷ counts) =
    let rest = count_gram gram counts in
    if str_eq g gram then (g, suc n) ∷ counts else (g, n) ∷ rest

unfoldable pub count_grams : List String → List (String × ℕ) → List (String × ℕ)
unfolding count_gram
count_grams [] counts = counts
count_grams (g ∷ gs) counts = count_grams gs (count_gram g counts)

-- What was added to the weight of one bit and what was taken from it, by the hashes of the grams
-- without their bits below it.
unfoldable pub weigh : List (ℕ × ℕ) → ℕ × ℕ
weigh [] = (0, 0)
weigh ((h, weight) ∷ hashes) =
    let (added, taken) = weigh hashes in
    if h % 2 == 1 then (weight + added, taken) else (added, weight + taken)

unfoldable pub shift_all : List (ℕ × ℕ) → List (ℕ × ℕ)
shift_all [] = []
shift_all ((h, weight) ∷ hashes) = (h / 2, weight) ∷ shift_all hashes

-- the number of the bits that outweigh, from the lowest on
unfoldable pub outweighing : ℕ → List (ℕ × ℕ) → ℕ
unfolding weigh shift_all
outweighing zero hashes = 0
outweighing (suc bits) hashes =
    let (added, taken) = weigh hashes in
    let rest = 2 * outweighing bits (shift_all hashes) in if ltb taken added then suc rest else rest

unfoldable pub hash_all : (hash64 : String → ℕ) → List (String × ℕ) → List (ℕ × ℕ)
hash_all hash64 [] = []
hash_all hash64 ((g, n) ∷ counts) = (hash64 g, n) ∷ hash_all hash64 counts

unfoldable pub simhash64 : (tokenize : String → List String) (hash64 : String → ℕ) → String → ℕ → ℕ
unfolding shingles count_grams outweighing hash_all
simhash64 tokenize hash64 text size =
    let grams = shingles (tokenize text) size in
    if is_empty grams then 0 else outweighing 64 (hash_all hash64 (count_grams grams []))

-- the bits that differ among so many of the lowest: the bits of an exclusive or, counted
unfoldable pub differing : ℕ → ℕ → ℕ → ℕ
differing zero a b = 0
differing (suc bits) a b =
    let rest = differing bits (a / 2) (b / 2) in if a % 2 == b % 2 then rest else suc rest

unfoldable pub hamming : ℕ → ℕ → ℕ
unfolding differing
hamming a b = differing 64 a b

-- a `bigint` of the database: `negsuc n` is -(n + 1)
pub data ℤ : Type 0 where
  pos negsuc : ℕ → ℤ

unfoldable pub to_signed : ℕ → ℤ
to_signed value =
    let v = value % modulus in if leb sign_bit v then negsuc (modulus - v - 1) else pos v

unfoldable pub from_signed : ℤ → ℕ
from_signed (pos n) = n % modulus
from_signed (negsuc n) = modulus - 1 - n % modulus

unfoldable pub is_near_duplicate : ℕ → ℕ → ℕ → Bool
unfolding hamming
is_near_duplicate a b max_distance = leb (hamming a b) max_distance
