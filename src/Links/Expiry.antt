-- ===== src/Links/Expiry.antt =====
-- When a link is live, and when its posting expires.
use career_pilot_ai.Prelude.{
  ℕ, ◌<◌, ◌≡◌, ◌≢◌, ◌↔◌, ◌⊎◌, refl, sym, inl, inr, String, Bool, true, false, ◌||◌, not, Option,
  List, leb, if◌then◌else◌, str_eq, eq_iff, arith, Bool-cases,
}
use career_pilot_ai.Matching.{UrlStatus, unknown, live, redirected, gone, blocked}
use career_pilot_ai.Links.{
  expired, Link, Response, Fetched, fetched, rate_limited, unreachable, is_missing, is_denied,
  is_closed, company_ok, assess, on_fetched, verify_one, stored,
}

true≢false : ¬ (true ≡ false)
true≢false e = cc

verdict-live :
    (m d l c t x : Bool)
    → ((if m
          then gone
          else if d
          then blocked
          else if l
          then unknown
          else if c
          then gone
          else if not t
          then redirected
          else if not x
          then redirected
          else live)
        ≡ live)
      ↔ ((m ≡ false) × (d ≡ false) × (l ≡ false) × (c ≡ false) × (t ≡ true) × (x ≡ true))
verdict-live true d l c t x = ((λ h. absurd cc), (λ h. absurd (true≢false h.0)))
verdict-live false true l c t x = ((λ h. absurd cc), (λ h. absurd (true≢false h.1)))
verdict-live false false true c t x = ((λ h. absurd cc), (λ h. absurd (true≢false h.2)))
verdict-live false false false true t x = ((λ h. absurd cc), (λ h. absurd (true≢false h.3)))
verdict-live false false false false false x =
    ((λ h. absurd cc), (λ h. absurd (true≢false (sym h.4))))
verdict-live false false false false true false =
    ((λ h. absurd cc), (λ h. absurd (true≢false (sym h.5))))
verdict-live false false false false true true =
    ((λ h. (refl, refl, refl, refl, refl, refl)), (λ h. refl))

stored_gone :
    (now : ℕ) (s : UrlStatus) (link : Link)
    → link.status ≢ expired
    → (stored now s link).status ≡ expired
    → s ≡ gone
unfolding stored
stored_gone now gone link n h = refl
stored_gone now unknown link n h = absurd (n h)
stored_gone now live link n h = absurd (n h)
stored_gone now redirected link n h = absurd (n h)
stored_gone now blocked link n h = absurd (n h)

module _ (visible_text : String → String) (token_present : String → String → Bool)
    (canonicalize_url : String → String) (closure_phrases : List String) where
  -- what a response says that a role is closed by
  abbrev pub SaysGone : Response → Type 0
  SaysGone r =
      (is_missing r.status_code ≡ true)
      ⊎ ((r.status_code < 400) × (is_closed closure_phrases (visible_text r.text) ≡ true))

  assess_gone :
      (r : Response) (url title : String) (company : Option String)
      → assess visible_text token_present canonicalize_url closure_phrases r url title company
        ≡ gone
      → SaysGone r
  unfolding assess
  assess_gone r url title company h = elim (Bool-cases (is_missing r.status_code)) [
    | inl m ↦ inl m
    | inr m ↦ elim (Bool-cases (is_denied r.status_code)) [
      | inl d ↦ absurd (let h' = rw (m, d) at h in cc)
      | inr d ↦ elim (Bool-cases (leb 400 r.status_code)) [
        | inl l ↦ absurd (let h' = rw (m, d, l) at h in cc)
        | inr l ↦ elim (Bool-cases (is_closed closure_phrases (visible_text r.text))) [
          | inl c ↦ inr (ground (arith, l), c)
          | inr c ↦ absurd (open_page _ _ (rw (m, d, l, c) at h))
        ]
      ]
    ]
  ]
    where
      open_page : (a b : Bool) → (if a then redirected else if b then redirected else live) ≢ gone
      open_page true b e = cc
      open_page false true e = cc
      open_page false false e = cc

  on_fetched_gone :
      (answer : Fetched) (url title : String) (company : Option String)
      → on_fetched visible_text token_present canonicalize_url closure_phrases answer url title
          company
        ≡ gone
      → (r : Response) × (answer ≡ fetched r) × SaysGone r
  unfolding on_fetched
  on_fetched_gone (fetched r) url title company h = (r, refl, assess_gone r url title company h)
  on_fetched_gone rate_limited url title company h = absurd cc
  on_fetched_gone unreachable url title company h = absurd cc

  verify_gone :
      (allowed : Bool) (answer : Fetched) (url title : String) (company : Option String)
      → verify_one visible_text token_present canonicalize_url closure_phrases allowed answer url
          title company
        ≡ gone
      → (allowed ≡ true) × ((r : Response) × (answer ≡ fetched r) × SaysGone r)
  unfolding verify_one
  verify_gone allowed answer url title company h = elim (Bool-cases (str_eq url "")) [
    | inl e ↦ absurd (let h' = rw e at h in cc)
    | inr e ↦ elim (Bool-cases allowed) [
      | inl a ↦ (a, on_fetched_gone answer url title company (rw (e, a) at h))
      | inr a ↦ absurd (let h' = rw (e, a) at h in cc)
    ]
  ]

  -- A posting expires by a check of its link only on the evidence of a response: one that says that
  -- the page is not there, or an answered page that has a phrase of a closed role. Neither a refusal
  -- of the robots rules, nor a throttled or unreachable host, nor an error, expires it.
  pub persist-expired :
      (now : ℕ) (allowed : Bool) (answer : Fetched) (url title : String) (company : Option String)
      (link : Link)
      → link.status ≢ expired
      → (stored now
          (verify_one visible_text token_present canonicalize_url closure_phrases allowed answer url
            title company)
          link).status
        ≡ expired
      → (allowed ≡ true) × ((r : Response) × (answer ≡ fetched r) × SaysGone r)
  persist-expired now allowed answer url title company link n h =
      verify_gone allowed answer url title company (stored_gone now _ link n h)

  -- A link is found live exactly where it may be fetched, was answered without an error, the page
  -- has no phrase of a closed role, names the title or the employer (an unknown employer counts as
  -- named), and the answer came from the same canonical link.
  pub assess-live_iff :
      (r : Response) (url title : String) (company : Option String)
      → let page = visible_text r.text in
        (assess visible_text token_present canonicalize_url closure_phrases r url title company
          ≡ live)
        ↔ ((r.status_code < 400)
            × (is_closed closure_phrases page ≡ false)
            × ((token_present title page
                  || company_ok visible_text token_present canonicalize_url closure_phrases company
                      page)
                ≡ true)
            × (canonicalize_url r.final_url ≡ canonicalize_url url))
  unfolding assess
  assess-live_iff r url title company =
      let (f, g) =
        verdict-live (is_missing r.status_code) (is_denied r.status_code) (leb 400 r.status_code)
          (is_closed closure_phrases (visible_text r.text))
          (token_present title (visible_text r.text)
            || company_ok visible_text token_present canonicalize_url closure_phrases company
                (visible_text r.text))
          (str_eq (canonicalize_url r.final_url) (canonicalize_url url)) in
      let (same, equal) = eq_iff (canonicalize_url r.final_url) (canonicalize_url url) in
      (
        (λ h. let (m, d, l, c, t, x) = f h in (ground (arith, l), c, t, same x)),
        (λ h.
            let (l, c, t, x) = h in
            g (ground (arith, l), ground (arith, l), ground (arith, l), c, t, equal x)),
      )
