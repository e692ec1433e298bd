-- ===== src/Matching/Requirements/Spans.antt =====
-- Where the requirements stand in a description: `extract_requirements_heuristic`.
use career_pilot_ai.Prelude.{
  ℕ, suc, zero, ◌+◌, ◌-◌, ◌≤◌, ◌<◌, ◌≡◌, refl, sym, subst, inl, inr, String, true, ◌&&◌, ◌||◌, none,
  some, List, [], ◌∷◌, ◌++◌, Bool-cases, Option-cases, str_eq, leb, length, length-append, arith,
  strip, lstrip, rstrip, is_space, is_none,
}
use career_pilot_ai.Matching.Requirements.{
  Extracted, Patterns, Reading, add_content, classify_kind, drop_text,
  extract_requirements_heuristic, read_content, read_line, read_lines, text_length, start_reading,
}

lstrip-length : (s : String) → text_length (lstrip s) ≤ text_length s
unfolding text_length lstrip
lstrip-length String.[] = omega arith
lstrip-length (String.◌∷◌ c s) = elim (Bool-cases (is_space c)) [
  | inl e ↦ rw e (omega (arith, lstrip-length s))
  | inr e ↦ rw e (omega arith)
]

rstrip-length : (s : String) → text_length (rstrip s) ≤ text_length s
unfolding text_length rstrip
rstrip-length String.[] = omega arith
rstrip-length (String.◌∷◌ c s) = elim (Bool-cases (is_space c && str_eq (rstrip s) "")) [
  | inl e ↦ rw e (omega (arith, rstrip-length s))
  | inr e ↦ rw e (omega (arith, rstrip-length s))
]

drop_text-length : (n : ℕ) (s : String) → text_length (drop_text n s) ≡ text_length s - n
unfolding text_length drop_text
drop_text-length zero s = omega arith
drop_text-length (suc n) String.[] = omega arith
drop_text-length (suc n) (String.◌∷◌ c s) = omega (arith, drop_text-length n s)

strip_drop-length : (n : ℕ) (s : String) → text_length (strip (drop_text n s)) ≤ text_length s - n
strip_drop-length n s =
    let both : text_length (strip (drop_text n s)) ≤ text_length (drop_text n s) =
      unfold strip in
      omega (arith, rstrip-length (lstrip (drop_text n s)), lstrip-length (drop_text n s)) in
    omega (arith, both, drop_text-length n s)

-- A requirement has the length and the kind that it must, no skill is named, and its span, which is
-- as long as its text, stands between two places of the description.
abbrev pub IsPlaced : Patterns → ℕ → Extracted → ℕ → Type 0
IsPlaced patterns low (r, none) high = ⊥
IsPlaced patterns low (r, some span) high =
    (low ≤ span.start)
    × (span.end ≡ span.start + text_length r.text)
    × (span.end ≤ high)
    × (15 ≤ text_length r.text)
    × (text_length r.text ≤ 400)
    × (r.kind ≡ classify_kind patterns r.text)

abbrev pub end_of : ℕ → Extracted → ℕ
end_of low (r, none) = low
end_of low (r, some span) = span.end

-- Requirements one after the other, between two places.
abbrev pub ArePlaced : Patterns → ℕ → List Extracted → ℕ → Type 0
ArePlaced patterns low [] high = low ≤ high
ArePlaced patterns low (x ∷ xs) high =
    IsPlaced patterns low x high × ArePlaced patterns (end_of low x) xs high

IsPlaced-mono :
    (patterns : Patterns) (low : ℕ) (x : Extracted) (high higher : ℕ)
    → high ≤ higher
    → IsPlaced patterns low x high
    → IsPlaced patterns low x higher
IsPlaced-mono patterns low (r, none) high higher h p = p
IsPlaced-mono patterns low (r, some span) high higher h (a, b, c, d, e, f) =
    (a, b, omega (arith, c, h), d, e, f)

ArePlaced-mono :
    (patterns : Patterns) (low : ℕ) (xs : List Extracted) (high higher : ℕ)
    → high ≤ higher
    → ArePlaced patterns low xs high
    → ArePlaced patterns low xs higher
ArePlaced-mono patterns low [] high higher h p = omega (arith, p, h)
ArePlaced-mono patterns low (x ∷ xs) high higher h (p, ps) = (
  IsPlaced-mono patterns low x high higher h p,
  ArePlaced-mono patterns (end_of low x) xs high higher h ps,
)

end_of-le :
    (patterns : Patterns) (low : ℕ) (x : Extracted) (high : ℕ)
    → IsPlaced patterns low x high
    → end_of low x ≤ high
end_of-le patterns low (r, none) high p = absurd p
end_of-le patterns low (r, some span) high (a, b, c, d, e, f) = c

ArePlaced-append :
    (patterns : Patterns) (low : ℕ) (xs : List Extracted) (middle : ℕ) (y : Extracted) (high : ℕ)
    → middle ≤ high
    → ArePlaced patterns low xs middle
    → ((l : ℕ) → l ≤ middle → IsPlaced patterns l y high)
    → ArePlaced patterns low (xs ++ y ∷ []) high
ArePlaced-append patterns low [] middle y high h p q =
    (q low p, end_of-le patterns low y high (q low p))
ArePlaced-append patterns low (x ∷ xs) middle y high h (p, ps) q = (
  IsPlaced-mono patterns low x middle high h p,
  ArePlaced-append patterns (end_of low x) xs middle y high h ps q,
)

-- What a line adds to a reading: it stays placed, and has one requirement more at most.
abbrev IsAfter : Patterns → ℕ → List Extracted → Reading → Type 0
IsAfter patterns offset before next =
    (next.offset ≡ offset)
    × ArePlaced patterns 0 next.results offset
    × (length next.results ≤ suc (length before))

add_content-IsAfter :
    (patterns : Patterns) (content_start : ℕ) (raw : String) (line_start : ℕ) (reading : Reading)
    → reading.offset ≡ line_start + text_length raw
    → ArePlaced patterns 0 reading.results line_start
    → IsAfter patterns reading.offset reading.results
        (add_content patterns content_start raw line_start reading)
unfolding add_content
add_content-IsAfter patterns content_start raw line_start reading o p =
    let content = strip (drop_text content_start raw) in
    let long = leb 15 (text_length content) in
    let short = leb (text_length content) 400 in
    let fits = strip_drop-length content_start raw in
    let wider : line_start ≤ reading.offset = omega (arith, o) in
    elim (Bool-cases (long && short)) [
      | inl e ↦
          let lower : 15 ≤ text_length content = ground (arith, e) in
          let upper : text_length content ≤ 400 = ground (arith, e) in
          rw e (
            refl,
            ArePlaced-append patterns 0 reading.results line_start _ reading.offset wider p (λ l h.
                (omega (arith, h), refl, omega (arith, o, fits, lower), lower, upper, refl)),
            omega (arith, length-append reading.results (_ ∷ [])),
          )
      | inr e ↦ rw e (
        refl,
        ArePlaced-mono patterns 0 reading.results line_start reading.offset wider p,
        omega arith,
      )
    ]

read_content-IsAfter :
    (patterns : Patterns) (raw : String) (line_start : ℕ) (reading : Reading)
    → reading.offset ≡ line_start + text_length raw
    → ArePlaced patterns 0 reading.results line_start
    → IsAfter patterns reading.offset reading.results (read_content patterns raw line_start reading)
unfolding read_content
read_content-IsAfter patterns raw line_start reading o p =
    elim (Option-cases (patterns.bullet_end raw)) [
      | inl e ↦
          elim (Bool-cases (is_none reading.section_must_have || reading.section_has_bullets)) [
            | inl f ↦
                rw (e, f, read_content)
                  (
                    refl,
                    ArePlaced-mono patterns 0 reading.results line_start reading.offset
                        (omega (arith, o)) p,
                    omega arith,
                  )
            | inr f ↦
                rw (e, f, read_content)
                  (add_content-IsAfter patterns (text_length raw - text_length (lstrip raw)) raw
                    line_start reading o p)
          ]
      | inr (n, e) ↦
          rw (e, read_content)
            (add_content-IsAfter patterns n raw line_start
              (record reading { section_has_bullets = true }) o p)
    ]

read_line-IsAfter :
    (patterns : Patterns) (raw : String) (reading : Reading)
    → ArePlaced patterns 0 reading.results reading.offset
    → IsAfter patterns
        (reading.offset + text_length raw)
        reading.results
        (read_line patterns raw reading)
unfolding read_line
read_line-IsAfter patterns raw reading p =
    let wider =
      ArePlaced-mono patterns 0 reading.results reading.offset (reading.offset + text_length raw)
        (omega arith) p in
    elim (Bool-cases (str_eq (strip raw) "")) [
      | inl e ↦ rw e (refl, wider, omega arith)
      | inr e ↦ elim (Option-cases (patterns.heading (strip raw))) [
        | inl f ↦
            rw (e, f)
              (read_content-IsAfter patterns raw reading.offset
                (record reading { offset = reading.offset + text_length raw }) refl p)
        | inr (label, f) ↦ rw (e, f) (refl, wider, omega arith)
      ]
    ]

abbrev pub total_length : List String → ℕ
total_length [] = 0
total_length (s ∷ ss) = text_length s + total_length ss

read_lines-ArePlaced :
    (patterns : Patterns) (lines : List String) (reading : Reading)
    → ArePlaced patterns 0 reading.results reading.offset
    → length reading.results < 30
    → let next = read_lines patterns lines reading in
      ArePlaced patterns 0 next.results (reading.offset + total_length lines)
      × (length next.results ≤ 30)
unfolding read_lines
read_lines-ArePlaced patterns [] reading p h = (
  ArePlaced-mono patterns 0 reading.results reading.offset (reading.offset + 0) (omega arith) p,
  omega (arith, h),
)
read_lines-ArePlaced patterns (raw ∷ lines) reading p h =
    let next = read_line patterns raw reading in
    let (o, q, n) = read_line-IsAfter patterns raw reading p in
    elim (Bool-cases (leb 30 (length next.results))) [
      | inl e ↦ rw e (
        ArePlaced-mono patterns 0 next.results (reading.offset + text_length raw)
            (reading.offset + (text_length raw + total_length lines)) (omega arith) q,
        omega (arith, n, h),
      )
      | inr e ↦
          let (ps, m) =
            read_lines-ArePlaced patterns lines next
              (subst (ArePlaced patterns 0 next.results) (sym o) q) (ground (arith, e)) in
          rw e (
            ArePlaced-mono patterns 0 (read_lines patterns lines next).results
                (next.offset + total_length lines)
                (reading.offset + (text_length raw + total_length lines)) (omega (arith, o)) ps,
            m,
          )
    ]

-- Where the lines of a description make it up, the requirements that are read from it are at most
-- 30, stand one after the other without overlap inside the description, each with a span as long as
-- its text, of 15 to 400 characters, and are of the kind that the text classifies as.
pub extract_requirements_heuristic-ArePlaced :
    (patterns : Patterns) (splitlines : String → List String) (description : String)
    → total_length (splitlines description) ≡ text_length description
    → let extracted = extract_requirements_heuristic patterns splitlines description in
      ArePlaced patterns 0 extracted (text_length description) × (length extracted ≤ 30)
unfolding extract_requirements_heuristic
extract_requirements_heuristic-ArePlaced patterns splitlines description e =
    let (p, n) =
      read_lines-ArePlaced patterns (splitlines description) start_reading (omega arith)
        (omega arith) in
    (ArePlaced-mono patterns 0 _ _ (text_length description) (omega (arith, e)) p, n)
