-- ===== src/Dedup/Hashes/Stored.antt =====
-- Hashes as the database stores them, and their distance: backend/app/domain/dedup/simhash.py.
use career_pilot_ai.Prelude.{
  ℕ, zero, suc, ◌*◌, ◌/◌, ◌%◌, ◌≤◌, ◌<◌, ◌≡◌, ◌↔◌, refl, sym, ap, ◌∙◌, subst, inl, inr, Bool,
  String, is_empty, ltb, leb, ◌==◌, ==_iff, ==_refl, if◌then◌else◌, Bool-cases, arith, List, [],
  ◌∷◌,
}
use native.Mathlib.Nat.{div-add-mod}
use career_pilot_ai.Dedup.Hashes.{
  ℤ, pos, negsuc, differing, from_signed, hamming, modulus, outweighing, shift_all, sign_bit,
  simhash64, to_signed, weigh, hash_all, count_grams, shingles,
}

-- 2 ^ n
abbrev pub power : ℕ → ℕ
power zero = 1
power (suc n) = 2 * power n

differing-le : (bits a b : ℕ) → differing bits a b ≤ bits
unfolding differing
differing-le zero a b = omega arith
differing-le (suc bits) a b = elim (Bool-cases (a % 2 == b % 2)) [
  | inl e ↦ rw e (omega (arith, differing-le bits (a / 2) (b / 2)))
  | inr e ↦ rw e (omega (arith, differing-le bits (a / 2) (b / 2)))
]

differing-same : (bits a : ℕ) → differing bits a a ≡ 0
unfolding differing
differing-same zero a = refl
differing-same (suc bits) a = rw (==_refl (a % 2)) (differing-same bits (a / 2))

differing-zero : (bits a b : ℕ) → a < power bits → b < power bits → differing bits a b ≡ 0 → a ≡ b
unfolding differing
differing-zero zero a b h k e = omega (arith, h, k)
differing-zero (suc bits) a b h k e = elim (Bool-cases (a % 2 == b % 2)) [
  | inl p ↦
      let q : a % 2 ≡ b % 2 = (==_iff (a % 2) (b % 2)).0 p in
      let ih : a / 2 ≡ b / 2 =
        differing-zero bits (a / 2) (b / 2) (omega (arith, h, div-add-mod a 2))
          (omega (arith, k, div-add-mod b 2)) (rw p at e) in
      omega (arith, ih, q, div-add-mod a 2, div-add-mod b 2)
  | inr p ↦ absurd (suc-ne-zero (rw p at e))
]
  where
    suc-ne-zero : {n : ℕ} → ¬ (suc n ≡ 0)
    suc-ne-zero e = omega (arith, e)

-- A signed number that the database's type holds.
abbrev pub IsBigint : ℤ → Type 0
IsBigint (pos n) = n < sign_bit
IsBigint (negsuc n) = n < sign_bit

to_signed-IsBigint : (a : ℕ) → IsBigint (to_signed a)
unfolding to_signed
to_signed-IsBigint a = elim (Bool-cases (leb sign_bit (a % modulus))) [
  | inl e ↦ rw e (ground (arith, e))
  | inr e ↦ rw e (ground (arith, e))
]

from_signed-to_signed : (a : ℕ) → from_signed (to_signed a) ≡ a % modulus
unfolding to_signed from_signed
from_signed-to_signed a = elim (Bool-cases (leb sign_bit (a % modulus))) [
  | inl e ↦ rw e (ground (arith, e))
  | inr e ↦ rw e (ground (arith, e))
]

outweighing-bound : (bits : ℕ) (hashes : List (ℕ × ℕ)) → outweighing bits hashes < power bits
unfolding outweighing
outweighing-bound zero hashes = omega arith
outweighing-bound (suc bits) hashes =
    let ih = outweighing-bound bits (shift_all hashes) in
    elim (Bool-cases (ltb (weigh hashes).1 (weigh hashes).0)) [
      | inl e ↦ rw e (omega (arith, ih))
      | inr e ↦ rw e (omega (arith, ih))
    ]

-- the bit at a place, and the hashes without the bits below it
abbrev pub bit_of : ℕ → ℕ → Bool
bit_of zero n = n % 2 == 1
bit_of (suc i) n = bit_of i (n / 2)

abbrev pub shift_by : ℕ → List (ℕ × ℕ) → List (ℕ × ℕ)
shift_by zero hashes = hashes
shift_by (suc i) hashes = shift_by i (shift_all hashes)

outweighing-bit_of :
    (bits i : ℕ) (hashes : List (ℕ × ℕ))
    → i < bits
    → bit_of i (outweighing bits hashes)
      ≡ ltb (weigh (shift_by i hashes)).1 (weigh (shift_by i hashes)).0
unfolding outweighing
outweighing-bit_of zero i hashes h = absurd (omega (arith, h))
outweighing-bit_of (suc bits) zero hashes h =
    elim (Bool-cases (ltb (weigh hashes).1 (weigh hashes).0)) [
      | inl e ↦ rw e (ground arith)
      | inr e ↦ rw e (ground arith)
    ]
outweighing-bit_of (suc bits) (suc i) hashes h =
    let ih = outweighing-bit_of bits i (shift_all hashes) (omega (arith, h)) in
    let x = outweighing bits (shift_all hashes) in
    let odd : suc (2 * x) / 2 ≡ x = omega arith in
    let even : (2 * x) / 2 ≡ x = omega arith in
    elim (Bool-cases (ltb (weigh hashes).1 (weigh hashes).0)) [
      | inl e ↦ rw e (ap (bit_of i) odd ∙ ih)
      | inr e ↦ rw e (ap (bit_of i) even ∙ ih)
    ]

outweighing-nil : (bits : ℕ) → outweighing bits [] ≡ 0
unfolding outweighing weigh shift_all
outweighing-nil zero = refl
outweighing-nil (suc bits) = omega (arith, outweighing-nil bits)

-- the hashes of a text's shingles, with how often each occurs
abbrev pub hashes_of :
    (tokenize : String → List String) (hash64 : String → ℕ) → String → ℕ → List (ℕ × ℕ)
hashes_of tokenize hash64 text size =
    hash_all hash64 (count_grams (shingles (tokenize text) size) [])

simhash64-outweighing :
    (tokenize : String → List String) (hash64 : String → ℕ) (text : String) (size : ℕ)
    → simhash64 tokenize hash64 text size ≡ outweighing 64 (hashes_of tokenize hash64 text size)
unfolding simhash64
simhash64-outweighing tokenize hash64 text size = of_grams (shingles (tokenize text) size)
  where
    of_grams :
        (grams : List String)
        → (if is_empty grams then 0 else outweighing 64 (hash_all hash64 (count_grams grams [])))
          ≡ outweighing 64 (hash_all hash64 (count_grams grams []))
    of_grams [] = unfold hash_all count_grams in sym (outweighing-nil 64)
    of_grams (g ∷ gs) = refl

-- The hash of a text has each of its 64 bits set where the shingles whose digests have it outweigh
-- those whose digests have it not. The database's type holds it as it is stored, and it is read back
-- as it was; the distance of two texts' hashes is at most 64, and 0 exactly where they are equal.
pub simhash64-to_signed :
    (tokenize : String → List String) (hash64 : String → ℕ) (text other : String) (size : ℕ)
    → let a = simhash64 tokenize hash64 text size in
      let b = simhash64 tokenize hash64 other size in
      ((i : ℕ)
        → i < 64
        → let (added, taken) = weigh (shift_by i (hashes_of tokenize hash64 text size)) in
          bit_of i a ≡ ltb taken added)
      × IsBigint (to_signed a)
      × (from_signed (to_signed a) ≡ a)
      × (hamming a b ≤ 64)
      × ((hamming a b ≡ 0) ↔ (a ≡ b))
unfolding hamming
simhash64-to_signed tokenize hash64 text other size =
    let a = simhash64 tokenize hash64 text size in
    let b = simhash64 tokenize hash64 other size in
    let p = simhash64-outweighing tokenize hash64 text size in
    let q = simhash64-outweighing tokenize hash64 other size in
    let below : a < modulus =
      omega (arith, p, outweighing-bound 64 (hashes_of tokenize hash64 text size)) in
    let below' : b < modulus =
      omega (arith, q, outweighing-bound 64 (hashes_of tokenize hash64 other size)) in
    (
      (λ i h. ap (bit_of i) p ∙ outweighing-bit_of 64 i (hashes_of tokenize hash64 text size) h),
      to_signed-IsBigint a,
      omega (arith, from_signed-to_signed a, below),
      differing-le 64 a b,
      (
        differing-zero 64 a b below below',
        λ e. subst (λ x. differing 64 a x ≡ 0) e (differing-same 64 a),
      ),
    )
