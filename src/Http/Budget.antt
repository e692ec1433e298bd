-- ===== src/Http/Budget.antt =====
-- backend/app/adapters/http.py, `_consume_rpm`: no more requests in a minute than the budget allows.
use career_pilot_ai.Prelude.{
  ℕ, suc, ◌+◌, ◌-◌, ◌≤◌, ◌<◌, min, ◌≡◌, refl, sym, ap, ◌∙◌, Bool, true, false, List, [], ◌∷◌, ◌++◌,
  arith, ltb, ◌==◌, if◌then◌else◌, inl, inr, Bool-cases, length, keep_if, count_if, ltb→lt, subst,
  All, length-append,
}

abbrev pub minute : ℕ
minute = 60000

-- `now - t < 60.0`
abbrev pub is_recent : ℕ → ℕ → Bool
is_recent now t = ltb now (t + minute)

-- the times in the window of one budget
abbrev pub recent : ℕ → List ℕ → List ℕ
recent now window = keep_if (is_recent now) window

abbrev pub first_of : ℕ → List ℕ → ℕ
first_of now [] = now
first_of now (t ∷ ts) = t

pub data Turn : Type 0 where
  granted : List ℕ → Turn
  -- the window that is stored, and the sleep
  waiting : List ℕ → ℕ → Turn

-- one round of the loop, at one reading of the clock
unfoldable pub consume : ℕ → ℕ → List ℕ → Turn
consume limit now window =
    let kept = recent now window in
    if limit == 0
    then granted window
    else if ltb (length kept) limit
    then granted (kept ++ now ∷ [])
    else waiting kept (min (minute + 10 - (now - first_of now kept)) minute)

count_if-append :
    (p : ℕ → Bool) (xs ys : List ℕ) → count_if p (xs ++ ys) ≡ count_if p xs + count_if p ys
count_if-append p [] ys = omega arith
count_if-append p (x ∷ xs) ys = ground (arith, count_if-append p xs ys)

count_if-recent :
    (now later : ℕ) (window : List ℕ)
    → now ≤ later
    → count_if (is_recent later) (recent now window) ≡ count_if (is_recent later) window
count_if-recent now later [] h = refl
count_if-recent now later (t ∷ ts) h = elim (Bool-cases (is_recent now t)) [
  | inl e ↦ rw e (ground (arith, count_if-recent now later ts h))
  | inr e ↦
      let f : is_recent later t ≡ false = ground (arith, e, h) in
      rw (e, f) (count_if-recent now later ts h)
]

count_if-le : (p : ℕ → Bool) (xs : List ℕ) → count_if p xs ≤ length xs
count_if-le p [] = omega arith
count_if-le p (x ∷ xs) = ground (arith, count_if-le p xs)

-- A window against all the requests that were ever granted, the time of the last reading being `now`.
pub record IsWindow (limit now : ℕ) (history window : List ℕ) : Type 0 where
  pub bounded : length window ≤ limit
  pub agrees :
      (later : ℕ)
      → now ≤ later
      → count_if (is_recent later) history ≡ count_if (is_recent later) window

-- The rounds of a loop and the requests granted, in the order of the readings of the clock.
pub data Spent (limit : ℕ) : ℕ → List ℕ → List ℕ → Type 0 where
  begin : Spent limit 0 [] []
  grant :
      {now : ℕ} {history window : List ℕ} (later : ℕ) {kept : List ℕ}
      → Spent limit now history window
      → now ≤ later
      → consume limit later window ≡ granted kept
      → Spent limit later (history ++ later ∷ []) kept
  wait :
      {now : ℕ} {history window : List ℕ} (later : ℕ) {kept : List ℕ} {sleep : ℕ}
      → Spent limit now history window
      → now ≤ later
      → consume limit later window ≡ waiting kept sleep
      → Spent limit later history kept

lt→ltb : (a b : ℕ) → a < b → ltb a b ≡ true
lt→ltb a b h = ground (arith, h)

granted-injective : {xs ys : List ℕ} → granted xs ≡ granted ys → xs ≡ ys
granted-injective {xs} {ys} e = ap (λ t. window_of t) e
  where
    window_of : Turn → List ℕ
    window_of (granted l) = l
    window_of (waiting l s) = l

waiting-injective : {xs ys : List ℕ} {m n : ℕ} → waiting xs m ≡ waiting ys n → (xs ≡ ys) × (m ≡ n)
waiting-injective {xs} {ys} {m} {n} e = (ap (λ t. window_of t) e, ap (λ t. sleep_of t) e)
  where
    window_of : Turn → List ℕ
    window_of (granted l) = l
    window_of (waiting l s) = l

    sleep_of : Turn → ℕ
    sleep_of (granted l) = 0
    sleep_of (waiting l s) = s

waiting-ne-granted : {xs ys : List ℕ} {m : ℕ} → ¬ (waiting xs m ≡ granted ys)
waiting-ne-granted e = cc

-- what a round did, by its result
granted-kept :
    (limit now : ℕ) (window kept : List ℕ)
    → 0 < limit
    → consume limit now window ≡ granted kept
    → (length (recent now window) < limit) × (recent now window ++ now ∷ [] ≡ kept)
unfolding consume
granted-kept limit now window kept pos e =
    let z : (limit == 0) ≡ false = ground (arith, pos) in
    elim (Bool-cases (ltb (length (recent now window)) limit)) [
      | inl h ↦ (ltb→lt _ _ h, granted-injective (rw (z, h) at e))
      | inr h ↦ absurd (waiting-ne-granted (rw (z, h) at e))
    ]

waiting-kept :
    (limit now : ℕ) (window kept : List ℕ) (sleep : ℕ)
    → consume limit now window ≡ waiting kept sleep
    → (limit ≤ length (recent now window))
      × (recent now window ≡ kept)
      × (min (minute + 10 - (now - first_of now (recent now window))) minute ≡ sleep)
unfolding consume
waiting-kept limit now window kept sleep e = elim (Bool-cases (limit == 0)) [
  | inl z ↦ absurd (waiting-ne-granted (sym (rw z at e)))
  | inr z ↦ elim (Bool-cases (ltb (length (recent now window)) limit)) [
    | inl h ↦ absurd (waiting-ne-granted (sym (rw (z, h) at e)))
    | inr h ↦ let (k, s) = waiting-injective (rw (z, h) at e) in (ground (arith, h), k, s)
  ]
]

recent-length : (now : ℕ) (window : List ℕ) → length (recent now window) ≤ length window
recent-length now [] = omega arith
recent-length now (t ∷ ts) = ground (arith, recent-length now ts)

count_if_self :
    (now : ℕ) (window : List ℕ)
    → count_if (is_recent now) (recent now window) ≡ length (recent now window)
count_if_self now [] = refl
count_if_self now (t ∷ ts) = elim (Bool-cases (is_recent now t)) [
  | inl e ↦ rw (e, e) (ap suc (count_if_self now ts))
  | inr e ↦ rw e (count_if_self now ts)
]

recent-All :
    (now : ℕ) (window : List ℕ) → All (λ t. t ≤ now) window → All (λ t. t ≤ now) (recent now window)
recent-All now [] h = tt
recent-All now (t ∷ ts) (h, hs) = elim (Bool-cases (is_recent now t)) [
  | inl e ↦ rw e (h, recent-All now ts hs)
  | inr e ↦ rw e (recent-All now ts hs)
]

-- after the sleep the oldest request of the window is out of it
first_expires :
    (now later : ℕ) (kept : List ℕ)
    → 0 < length kept
    → All (λ t. t ≤ now) kept
    → now + min (minute + 10 - (now - first_of now kept)) minute ≤ later
    → length (recent later kept) < length kept
first_expires now later [] l a h = absurd (omega (arith, l))
first_expires now later (t ∷ ts) l (a, as') h =
    let old : is_recent later t ≡ false = ground (arith, a, h) in
    rw old (omega (arith, recent-length later ts))

module _ (limit : ℕ) (pos : 0 < limit) where
  grant-IsWindow :
      (now later : ℕ) (history window kept : List ℕ)
      → IsWindow limit now history window
      → now ≤ later
      → consume limit later window ≡ granted kept
      → IsWindow limit later (history ++ later ∷ []) kept
  grant-IsWindow now later history window kept w h e =
      let (room, k) = granted-kept limit later window kept pos e in
      record {
        bounded =
            subst (λ l. length l ≤ limit) k
              (rw (length-append (recent later window) (later ∷ [])) (omega (arith, room)));
        agrees = λ at le.
            subst (λ l. count_if (is_recent at) (history ++ later ∷ []) ≡ count_if (is_recent at) l)
              k
              (count_if-append _ history (later ∷ [])
                ∙ ap (λ n. n + count_if (is_recent at) (later ∷ []))
                    (w.agrees at (omega (arith, h, le)))
                ∙ sym (
                    count_if-append _ (recent later window) (later ∷ [])
                    ∙ ap (λ n. n + count_if (is_recent at) (later ∷ []))
                        (count_if-recent later at window le)));
      }

  wait-IsWindow :
      (now later : ℕ) (history window kept : List ℕ) (sleep : ℕ)
      → IsWindow limit now history window
      → now ≤ later
      → consume limit later window ≡ waiting kept sleep
      → IsWindow limit later history kept
  wait-IsWindow now later history window kept sleep w h e =
      let (_, k, _) = waiting-kept limit later window kept sleep e in
      record {
        bounded =
            subst (λ l. length l ≤ limit) k (omega (arith, recent-length later window, w.bounded));
        agrees = λ at le.
            subst (λ l. count_if (is_recent at) history ≡ count_if (is_recent at) l) k
              (w.agrees at (omega (arith, h, le)) ∙ sym (count_if-recent later at window le));
      }

  Spent-IsWindow :
      {now : ℕ} {history window : List ℕ}
      → Spent limit now history window
      → IsWindow limit now history window
  Spent-IsWindow begin = record { bounded = omega arith; agrees = λ later h. refl }
  Spent-IsWindow (grant {now} {history} {window} later {kept} s h e) =
      grant-IsWindow now later history window kept (Spent-IsWindow s) h e
  Spent-IsWindow (wait {now} {history} {window} later {kept} {sleep} s h e) =
      wait-IsWindow now later history window kept sleep (Spent-IsWindow s) h e

  -- Whatever the readings of a clock that does not go back, at no time are there more requests granted
  -- in the minute before it than the budget, where it is not 0.
  pub Spent-bounded :
      {now : ℕ} {history window : List ℕ} (at : ℕ)
      → Spent limit now history window
      → now ≤ at
      → count_if (is_recent at) history ≤ limit
  Spent-bounded {now} {history} {window} at s h =
      let w = Spent-IsWindow s in
      omega (arith, w.agrees at h, count_if-le (is_recent at) window, w.bounded)

  -- A request that finds the budget spent waits once at most: a round after the sleep that the loop
  -- asks for, with no other request in between, grants it, where the budget is not 0, the window is no
  -- longer than it, and no time of the window is yet to come.
  pub consume_again :
      (now later : ℕ) (window kept : List ℕ) (sleep : ℕ)
      → length window ≤ limit
      → All (λ t. t ≤ now) window
      → consume limit now window ≡ waiting kept sleep
      → now + sleep ≤ later
      → (after : List ℕ) × (consume limit later kept ≡ granted after)
  unfolding consume
  consume_again now later window kept sleep b a e h =
      let (full, k, s) = waiting-kept limit now window kept sleep e in
      let z : (limit == 0) ≡ false = ground (arith, pos) in
      let room : ltb (length (recent later kept)) limit ≡ true =
        subst (λ l. ltb (length (recent later l)) limit ≡ true) k
          (lt→ltb _ _ (
            omega (
              arith,
              recent-length now window,
              b,
              first_expires now later (recent now window) (omega (arith, full, pos))
                  (recent-All now window a) (omega (arith, s, h)),
            ))) in
      (recent later kept ++ later ∷ [], rw (z, room) refl)
