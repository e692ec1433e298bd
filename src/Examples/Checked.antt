-- ===== src/Examples/Checked.antt =====
-- The verification of links and the pick of a posting at concrete inputs. The text functions are concrete.
use career_pilot_ai.Prelude.{
  Bool, ℕ, ◌≡◌, ◌≢◌, refl, String, true, false, none, List, [], ◌∷◌, str_eq,
}
use career_pilot_ai.Matching.{live}
use career_pilot_ai.Links.{open_posting, expired, Link, Response, fetched, stored, verify_one}
use career_pilot_ai.Dedup.{DedupCandidate, canonical_pick}
use career_pilot_ai.Links.Expiry.{SaysGone, persist-expired}

abbrev same : String → String
same s = s

abbrev phrases : List String
phrases = "filled" ∷ []

abbrev page : Response
page = record { status_code = 200; final_url = "u"; text = "filled" }

abbrev link : Link
link = record { id = 1; url_status = live; last_verified_at = none; status = open_posting }

still_open : link.status ≢ expired
still_open e = cc

now_expired :
    (stored 5
      (verify_one same str_eq same phrases true (fetched page) "u" "engineer" none)
      link).status
    ≡ expired
unfolding stored verify_one
now_expired = refl

persist-expired_example :
    (true ≡ true)
    × ((r : Response) × (fetched page ≡ fetched r) × SaysGone same str_eq same phrases r)
persist-expired_example =
    persist-expired same str_eq same phrases 5 true (fetched page) "u" "engineer" none link
      still_open now_expired

abbrev posting : ℕ → ℕ → Bool → DedupCandidate
posting id size native = record {
  id = id;
  source_name = "s";
  external_id = "e";
  company_key = none;
  title_normalized = "t";
  canonical_url = none;
  simhash = none;
  posted_at = none;
  description_length = size;
  location_key = none;
  is_ats_native = native;
}

abbrev others : List DedupCandidate
others = posting 2 10 true ∷ posting 3 50 false ∷ []

native_picked : canonical_pick (posting 1 90 false) others ≡ posting 2 10 true
unfolding canonical_pick
native_picked = refl
