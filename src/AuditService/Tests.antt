-- ===== src/AuditService/Tests.antt =====
-- The audit service at concrete calls.
use basitclaw.Common.{
  ℕ, ◌≡◌, refl, String, Bool, true, false, none, some, [], ◌∷◌, ◌++◌, if◌then◌else◌, str_eq, ok,
  err,
}
use basitclaw.Common.Text.{is_safe, is_subject_code, is_alphanumeric, trim, trim_start, trim_text}
use basitclaw.Ledger.{
  Event, Unsigned, empty_ledger, is_identifier, append, sign, export_tenant, verify, verify_events,
}
use basitclaw.Ledger.Metadata.{sanitise}
use basitclaw.AuditService.{
  World, EngagementInput, FindingInput, Engagement, parse_date, append_text, without_angles,
  clean_text, overlaps, safe_actor, is_placeholder_ref, validation,
}
use basitclaw.AuditService.Operations.{
  record_governance, settle, commit_mutation, checked, new_engagement, push_engagement,
  create_engagement, new_finding,
}
use basitclaw.AuditService.Commit.{
  creates_engagement, perform, forget, succeeded, perform-failed, perform-recorded,
}
use basitclaw.AuditService.Plan.{IsPlan, perform-IsPlan}

abbrev hash_event : Unsigned → String
hash_event u = String.◌∷◌ "h" u.entity_id

abbrev works : World → Bool
works w = true

abbrev breaks : World → Bool
breaks w = false

abbrev year : ℕ → String
year t = "2026"

abbrev padded : ℕ → ℕ → String
padded w n = "005"

abbrev input : EngagementInput
input = record {
  universe_item_id = "AU-1";
  objective = "Review <access>";
  scope = "all" ∷ [];
  exclusions = [];
  lead_auditor = "ann";
  start_date = record { written = "2026-01-01"; time = some 1_000 };
  end_date = record { written = "2026-02-01"; time = some 2_000 };
  management_approved = true;
}

abbrev empty_world : World
empty_world = record { state = record { engagements = []; findings = [] }; ledger = empty_ledger }

abbrev planned : Engagement
planned = record {
  id = "ENG-2026-005";
  universe_item_id = "AU-1";
  objective = "Review access";
  scope = "all" ∷ [];
  exclusions = [];
  lead_auditor = "ann";
  starts = 1_000;
  ends = 2_000;
  status = "planned";
  placeholders = [];
}

made :
    new_engagement hash_event "acme" works ("AU-1" ∷ []) year padded input 500 empty_world.state
    ≡ ok planned
unfolding new_engagement parse_date append_text clean_text without_angles trim_text
made = refl

abbrev booked : World
booked =
    (perform hash_event "acme" works ("AU-1" ∷ []) year padded (creates_engagement input) none 500
      empty_world).1

made_call :
    succeeded
      (perform hash_event "acme" works
        ("AU-1" ∷ [])
        year
        padded
        (creates_engagement input)
        none
        500
        empty_world).0
    ≡ true
unfolding perform forget create_engagement checked new_engagement parse_date append_text clean_text
    without_angles trim_text commit_mutation settle push_engagement record_governance safe_actor
    is_identifier is_safe is_subject_code is_alphanumeric trim trim_start append sign sanitise
made_call = refl

unpersisted_call :
    succeeded
      (perform hash_event "acme" breaks
        ("AU-1" ∷ [])
        year
        padded
        (creates_engagement input)
        none
        500
        empty_world).0
    ≡ false
unfolding perform forget create_engagement checked new_engagement parse_date append_text clean_text
    without_angles trim_text commit_mutation settle push_engagement record_governance safe_actor
    is_identifier is_safe is_subject_code is_alphanumeric trim trim_start append sign sanitise
unpersisted_call = refl

perform-failed_example :
    (perform hash_event "acme" breaks
      ("AU-1" ∷ [])
      year
      padded
      (creates_engagement input)
      none
      500
      empty_world).1
    ≡ empty_world
perform-failed_example =
    perform-failed hash_event "acme" breaks ("AU-1" ∷ []) year padded (creates_engagement input)
      none 500 empty_world unpersisted_call

perform-recorded_example :
    (works booked ≡ true)
    × (e : Event) × ((t : String)
        → export_tenant t booked.ledger ≡ (
            if str_eq "acme" t
            then export_tenant t empty_ledger ++ e ∷ []
            else export_tenant t empty_ledger))
perform-recorded_example =
    perform-recorded hash_event "acme" works ("AU-1" ∷ []) year padded (creates_engagement input)
      none 500 empty_world made_call

empty_ledger_verifies : (verify hash_event "acme" empty_ledger).valid ≡ true
unfolding verify verify_events
empty_ledger_verifies = refl

perform-IsPlan_example : IsPlan booked.state.engagements
perform-IsPlan_example =
    perform-IsPlan hash_event "acme" works ("AU-1" ∷ []) year padded (creates_engagement input) none
      500 empty_world tt

double_booking_is_refused :
    new_engagement hash_event "acme" works
      ("AU-1" ∷ [])
      year
      padded
      input
      500
      (record { engagements = planned ∷ []; findings = [] })
    ≡ err (validation "conflictingEngagementId")
unfolding new_engagement parse_date append_text clean_text without_angles trim_text overlaps
double_booking_is_refused = refl

-- A reference with an angle bracket in front passes as no placeholder and is stored as one.
abbrev closed_finding : FindingInput
closed_finding = record {
  engagement_id = "ENG-2026-005";
  title = "Access";
  severity = "high";
  owner = "ann";
  due_date = record { written = "2026-03-01"; time = some 3_000 };
  evidence_refs = "<PLH-1" ∷ [];
  response_optional = false;
  status = some "closed";
}

placeholder_closes_a_finding :
    new_finding hash_event "acme" works
      ("AU-1" ∷ [])
      year
      padded
      closed_finding
      500
      (record { engagements = planned ∷ []; findings = [] })
    ≡ ok (record {
      id = "FND-2026-005";
      engagement_id = "ENG-2026-005";
      title = "Access";
      severity = "high";
      owner = "ann";
      due_date = "2026-03-01";
      evidence_refs = "PLH-1" ∷ [];
      response_required = true;
      status = "closed";
    })
unfolding new_finding parse_date append_text clean_text without_angles trim_text is_placeholder_ref
placeholder_closes_a_finding = refl
