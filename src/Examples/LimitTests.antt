-- ===== src/Examples/LimitTests.antt =====
-- Tests of internal/hub/rate_limit.go and of the aggregation in internal/hub/posture.go, and instances
-- of their theorems.
use barrikade_lens.Common.{◌-◌, ◌≤◌, true, false, String, List, [], ◌∷◌, none, some, ◌≡◌, refl, ok}
use barrikade_lens.Common.Sorting.{sort_by, insert_by, text_le}
use barrikade_lens.Discovery.Values.{Value, bool, text, field, end, get, put}
use barrikade_lens.Hub.RateLimit.{
  LimitCall, LimitRow, limited, rate_limit, window_of, count_request, is_limit_row, decide,
  retry_after, remote_request_key, principal_request_key,
}
use barrikade_lens.Hub.RateLimit.Admitted.{admissions, counted, admissions_bound}
use barrikade_lens.Hub.Posture.Aggregation.{
  AggregateEntity, ObservationRow, ConflictValue, confidence_rank, texts_once, given_texts,
  joined_value, gather_value, gather_attributes, gather_rows, strongest, all_provenance,
  aggregate_entity, note_conflict, update_conflict, add_source, selected_source, merge_json_arrays,
}
use barrikade_lens.Hub.Posture.Aggregation.Joined.{IsAggregate, aggregate_entity-IsAggregate}

abbrev call : LimitCall
call = record { scope = "ingest"; digest = "k"; now = 25; refused_at = 26; answered = true }

abbrev full_row : LimitRow
full_row = record {
  scope = "ingest";
  key_digest = "k";
  window_start = 20;
  request_count = 2;
  expires_at = 40;
}

refused : (rate_limit 2 10 call (full_row ∷ [])).0 ≡ limited 1
unfolding rate_limit window_of count_request is_limit_row decide retry_after
refused = refl

keyed :
    principal_request_key
      (λ s. some "192.0.2.1")
      (record { remote_addr = "192.0.2.1:5"; principal = none })
    ≡ "192.0.2.1"
unfolding principal_request_key remote_request_key
keyed = refl

admissions_bound_example :
    admissions 2 10 "ingest" "k" 20 (call ∷ call ∷ call ∷ []) [] ≤ 2 - counted "ingest" "k" 20 []
admissions_bound_example = admissions_bound 2 10 "ingest" "k" 20 (call ∷ call ∷ call ∷ []) []

abbrev first : ObservationRow
first = record {
  source_id = "a";
  name = "agent";
  kind = "agent";
  canonical = "key";
  attributes = some (field "installed" (bool true) (field "port" (text "1") end));
  confidence = "likely";
  provenance = "x" ∷ [];
}

abbrev second : ObservationRow
second = record first {
  source_id = "b";
  attributes = some (field "installed" (bool false) (field "port" (text "2") end));
  confidence = "confirmed";
  provenance = "" ∷ "w" ∷ [];
}

abbrev joined : AggregateEntity
joined = record {
  name = "agent";
  kind = "agent";
  canonical_key = "key";
  attributes = field "installed" (bool true) (field "port" (text "1") end);
  confidence = "confirmed";
  provenance = "w" ∷ "x" ∷ [];
}

abbrev conflicts : List (String × List ConflictValue)
conflicts =
    (
      "port",
      record { encoded = "1"; value = text "1"; sources = "a" ∷ [] }
          ∷ record { encoded = "2"; value = text "2"; sources = "b" ∷ [] }
          ∷ [],
    )
    ∷ []

abbrev canonical : Value → String
canonical (text s) = s
canonical v = ""

aggregated :
    aggregate_entity canonical (λ v w. false) (first ∷ second ∷ []) ≡ ok (joined, conflicts)
unfolding aggregate_entity gather_rows gather_attributes gather_value joined_value merge_json_arrays
    get put note_conflict update_conflict add_source selected_source strongest confidence_rank
    all_provenance given_texts texts_once sort_by insert_by text_le
aggregated = refl

aggregate_entity-IsAggregate_example : IsAggregate (first ∷ second ∷ []) joined
aggregate_entity-IsAggregate_example =
    aggregate_entity-IsAggregate canonical (λ v w. false) (first ∷ second ∷ []) joined conflicts
      aggregated
