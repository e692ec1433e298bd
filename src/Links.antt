-- ===== src/Links.antt =====
-- backend/app/services/verification.py: what an apply link is found to be, and what is stored. The
-- text of a page, the search for the distinctive words of a title or employer in it, and canonical
-- links are text processing and are arguments, as are the robots rules, the response and the phrases
-- of a closed role, some of which are Arabic.
pub mod Expiry
use career_pilot_ai.Prelude.{
  ℕ, suc, String, Bool, true, false, ◌&&◌, ◌||◌, not, Option, none, some, List, [], ◌∷◌, map, leb,
  ◌==◌, if◌then◌else◌, any, str_eq,
}
use career_pilot_ai.Matching.{UrlStatus, unknown, live, redirected, gone, blocked, contains}

pub data PostingStatus : Type 0 where
  open_posting closed expired : PostingStatus

pub record Link : Type 0 where
  pub id : ℕ
  pub url_status : UrlStatus
  pub last_verified_at : Option ℕ
  pub status : PostingStatus

pub record Response : Type 0 where
  pub status_code : ℕ
  pub final_url : String
  pub text : String

-- how `HttpClient.request` ends
pub data Fetched : Type 0 where
  fetched : Response → Fetched
  rate_limited unreachable : Fetched

abbrev pub is_missing : ℕ → Bool
is_missing code = code == 404 || code == 410

abbrev pub is_denied : ℕ → Bool
is_denied code = code == 401 || code == 403

pub is_closed : List String → String → Bool
unfolding contains
is_closed phrases page = any (λ phrase. contains phrase page) phrases

module _ (visible_text : String → String) (token_present : String → String → Bool)
    (canonicalize_url : String → String) (closure_phrases : List String) where
  abbrev pub company_ok : Option String → String → Bool
  company_ok none page = true
  company_ok (some company) page = token_present company page

  unfoldable pub assess : Response → String → String → Option String → UrlStatus
  unfolding is_closed
  assess response apply_url title company =
      let page = visible_text response.text in
      if is_missing response.status_code
      then gone
      else if is_denied response.status_code
      then blocked
      else if leb 400 response.status_code
      then unknown
      else if is_closed closure_phrases page
      then gone
      else if not (token_present title page || company_ok company page)
      then redirected
      else if not (str_eq (canonicalize_url response.final_url) (canonicalize_url apply_url))
      then redirected
      else live

  unfoldable pub on_fetched : Fetched → String → String → Option String → UrlStatus
  unfolding assess
  on_fetched (fetched response) apply_url title company = assess response apply_url title company
  on_fetched rate_limited apply_url title company = unknown
  on_fetched unreachable apply_url title company = unknown

  -- `allowed` is what the robots rules say of the link
  unfoldable pub verify_one : Bool → Fetched → String → String → Option String → UrlStatus
  unfolding on_fetched
  verify_one allowed answer apply_url title company =
      if str_eq apply_url ""
      then unknown
      else if not allowed
      then blocked
      else on_fetched answer apply_url title company

abbrev pub is_gone : UrlStatus → Bool
is_gone gone = true
is_gone _ = false

-- `CASE WHEN :status = 'gone' THEN 'expired' ELSE status END`
unfoldable pub stored : ℕ → UrlStatus → Link → Link
stored now status link = record link {
  url_status = status;
  last_verified_at = some now;
  status = if is_gone status then expired else link.status;
}

unfoldable pub persist : ℕ → ℕ → UrlStatus → List Link → List Link
unfolding stored
persist now id status =
    map (λ (link : Link). if link.id == id then stored now status link else link)

pub record VerificationReport : Type 0 where
  pub checked : ℕ
  pub live_count : ℕ
  pub gone_count : ℕ
  pub blocked_count : ℕ
  pub redirected_count : ℕ
  pub unknown_count : ℕ

-- `VerificationReport.record`
unfoldable pub record_status : UrlStatus → VerificationReport → VerificationReport
record_status live r = record r { checked = suc r.checked; live_count = suc r.live_count }
record_status gone r = record r { checked = suc r.checked; gone_count = suc r.gone_count }
record_status blocked r = record r { checked = suc r.checked; blocked_count = suc r.blocked_count }
record_status redirected r = record r {
  checked = suc r.checked;
  redirected_count = suc r.redirected_count;
}
record_status unknown r = record r { checked = suc r.checked; unknown_count = suc r.unknown_count }
