-- ===== src/Ingest/Counts.antt =====
-- What a run counts and keeps of the rows that it fetched.
use career_pilot_ai.Prelude.{ℕ, ◌+◌, ◌≡◌, String, List, ◌++◌, map, length}
use career_pilot_ai.Ingest.{RawJob, RawPayload}
use career_pilot_ai.Ingest.Rows.{Progress}

abbrev pub payload_of : String → ℕ → RawJob → RawPayload
payload_of source_id run_id raw = record {
  source_id = source_id;
  run_id = run_id;
  external_id = raw.external_id;
  payload = raw.payload;
}

-- What some fetched rows add to the report and to the payloads.
pub record IsCounted (source_id : String) (raws : List RawJob) (p q : Progress) : Type 0 where
  pub same_run : q.0.run_id ≡ p.0.run_id
  pub fetched : q.0.fetched ≡ p.0.fetched + length raws
  pub outcomes :
      q.0.new + q.0.updated + q.0.errors ≡ p.0.new + p.0.updated + p.0.errors + length raws
  pub changed :
      length q.0.changed_posting_ids + p.0.new + p.0.updated
      ≡ length p.0.changed_posting_ids + q.0.new + q.0.updated
  pub payloads : q.2.raw_payloads ≡ p.2.raw_payloads ++ map (payload_of source_id p.0.run_id) raws
