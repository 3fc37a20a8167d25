-- ===== src/AccessControl.antt =====
-- security/accessControl.js: roles and their permissions, and in the modules below it the credentials.
pub mod Credentials
pub mod Authentication
pub mod Soundness
pub mod Configured
mod Tests
use basitclaw.Common.{String, Option, none, some, List, [], ◌∷◌, if◌then◌else◌, str_eq}

-- ROLE_PERMISSIONS
abbrev auditor_permissions : List String
auditor_permissions = "audit:read" ∷ "fieldwork:write" ∷ "finding:write" ∷ []

abbrev audit_manager_permissions : List String
audit_manager_permissions =
    "audit:read" ∷ "engagement:write" ∷ "fieldwork:write" ∷ "finding:write" ∷ "governance:read"
    ∷ "evidence:scan" ∷ "evidence:preserve" ∷ "evidence:export" ∷ "backup:read" ∷ "backup:write"
    ∷ "replica:read" ∷ "replica:write" ∷ "resilience:read" ∷ "drill:run" ∷ "coordination:read"
    ∷ "privileged:request" ∷ "privileged:read" ∷ []

abbrev compliance_admin_permissions : List String
compliance_admin_permissions =
    "audit:read" ∷ "engagement:write" ∷ "fieldwork:write" ∷ "finding:write" ∷ "governance:read"
    ∷ "evidence:scan" ∷ "evidence:preserve" ∷ "evidence:export" ∷ "backup:read" ∷ "backup:write"
    ∷ "backup:restore" ∷ "replica:read" ∷ "replica:write" ∷ "resilience:read" ∷ "resilience:run"
    ∷ "drill:run" ∷ "coordination:read" ∷ "security:read" ∷ "privileged:request" ∷ "privileged:read"
    ∷ "privileged:approve" ∷ "privileged:revoke" ∷ "privileged:break_glass" ∷ []

-- `none` is the TypeError for a role that is not in the table.
unfoldable pub permissions_for_role : String → Option (List String)
permissions_for_role role =
    if str_eq role "audit_viewer"
    then some ("audit:read" ∷ [])
    else if str_eq role "auditor"
    then some auditor_permissions
    else if str_eq role "audit_manager"
    then some audit_manager_permissions
    else if str_eq role "compliance_admin"
    then some compliance_admin_permissions
    else none
