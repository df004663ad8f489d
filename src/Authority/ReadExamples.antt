-- ===== src/Authority/ReadExamples.antt =====
-- The theorems on the reads of the authority, applied to its scenario.
use snagline.Prelude.{◌≡◌, refl, true, valid_text, valid_commitment}
use snagline.Tx.{ok}
use snagline.Authority.Registries.{upsert_high_water}
use snagline.Authority.Reads.{
  EdgeDeliveryQuery, validate_query, active_edge, delivery_page, list_edge_deliveries, resolve_case,
}
use snagline.Authority.Pages.{IsNextStretch, list_edge_deliveries-IsNextStretch}
use snagline.Authority.Projection.{ProjectionFactQuery, validate_projection, list_projection_facts}
use snagline.Authority.ProjectionPages.{
  IsProjection, projection_page, list_projection_facts-IsProjection,
}
use snagline.Authority.Request.{validate_case}
use snagline.Authority.Tables.{CaseRow}
use snagline.Authority.Cases.{case_work, same_case}
use snagline.Authority.Replay.{now, after}
use snagline.Authority.Resolved.{resolved_case}
use snagline.Authority.Scenario.{
  sha, advised, advised-History, registered, case_open, first_case, commitment_b, work_of,
  registered-History, case_open_ok, advised-Commits,
}

abbrev pub query : EdgeDeliveryQuery
query = record {
  tenant_id = "t";
  edge_id = "edge";
  principal_id = "p";
  edge_generation = 1;
  after_sequence = 1;
  limit = 10;
}

pub page_ok : list_edge_deliveries query advised ≡ ok (delivery_page query advised)
unfolding advised validate_query list_edge_deliveries active_edge valid_text upsert_high_water
page_ok = refl

list_edge_deliveries-IsNextStretch_example :
    IsNextStretch query advised (delivery_page query advised)
list_edge_deliveries-IsNextStretch_example =
    list_edge_deliveries-IsNextStretch sha "a" advised query (delivery_page query advised)
      advised-History page_ok

abbrev projection_query : ProjectionFactQuery
projection_query = record { tenant_id = "t"; after_authority_sequence = 2; limit = 10 }

projection_ok :
    list_projection_facts projection_query advised ≡ ok (projection_page projection_query advised)
unfolding list_projection_facts validate_projection valid_text
projection_ok = refl

list_projection_facts-IsProjection_example :
    IsProjection projection_query advised (projection_page projection_query advised)
list_projection_facts-IsProjection_example =
    list_projection_facts-IsProjection sha "a" projection_query advised
      (projection_page projection_query advised) advised-History projection_ok

first_case_is_valid : validate_case first_case ≡ true
unfolding validate_case valid_text valid_commitment
first_case_is_valid = refl

resolved_case_example :
    (row : CaseRow) × (resolve_case "t" "c" commitment_b advised ≡ ok row)
    × (same_case row first_case ≡ true)
    × (row.commit_revision ≡ (work_of (case_work sha "a" 1 first_case registered)).0.revision)
resolved_case_example =
    resolved_case sha "a" 1 first_case registered case_open advised
      (work_of (case_work sha "a" 1 first_case registered)) registered-History first_case_is_valid
      case_open_ok (after now advised-Commits)
