-- ===== src/Tenants.antt =====
-- services/control-plane/internal/tenants/model.go and store.go: tenants, provisioning jobs and the
-- in-memory store of both. Times are nanoseconds since the zero time, as in the audit log; a nil time
-- is `none`.
pub mod Slug
pub mod Saga
pub mod Service
pub mod Lifecycle
pub mod Handlers
mod Format
mod Compensation
mod Rows
mod Creation
mod Transitions
mod Guard
mod Tests
use mcp_gateway_w.Prelude.{
  ℕ, Bool, true, false, List, [], ◌∷◌, map, length, Option, none, some, Text, lit, ltb,
  if◌then◌else◌,
}
use mcp_gateway_w.Prelude.Dict.{Dict, lookup, insert}

-- `unset` is the empty string, the zero value.
pub data Status : Type 0 where
  unset : Status
  provisioning : Status
  active : Status
  suspended : Status
  deleting : Status
  deleted : Status
  failed : Status

pub record Tenant : Type 0 where
  pub slug : Text
  pub display_name : Text
  pub status : Status
  pub admin_email : Text
  pub realm_name : Text
  pub subdomain_ready : Bool
  pub created_at : ℕ
  pub updated_at : ℕ
  pub suspended_at : Option ℕ
  pub deleted_at : Option ℕ
  pub audit_retention_until : Option ℕ

pub data JobAction : Type 0 where
  action_provision : JobAction
  action_suspend : JobAction
  action_resume : JobAction
  action_delete : JobAction

pub data JobStatus : Type 0 where
  job_pending : JobStatus
  job_running : JobStatus
  job_succeeded : JobStatus
  job_failed : JobStatus
  job_compensated : JobStatus

pub record Step : Type 0 where
  pub name : Text
  pub state : Text
  pub detail : Text

pub record ProvisioningJob : Type 0 where
  pub id : Text
  pub tenant_slug : Text
  pub action : JobAction
  pub status : JobStatus
  pub steps : List Step
  pub error : Text
  pub created_at : ℕ
  pub updated_at : ℕ

-- The errors that the callers tell apart, and all others.
pub data Error : Type 0 where
  err_not_found : Error
  err_slug_taken : Error
  err_invalid_slug : Error
  err_conflict : Error
  err_not_configured : Error
  other : Text → Error

pub record MemStore : Type 0 where
  pub tenants : Dict Tenant
  pub jobs : Dict ProvisioningJob

unfoldable pub new_mem_store : MemStore
new_mem_store = record { tenants = []; jobs = [] }

unfoldable pub create_tenant : MemStore → Tenant → Option Error × MemStore
create_tenant s t = elim (lookup t.slug s.tenants) [
  | some _ ↦ (some err_slug_taken, s)
  | none ↦ (none, record s { tenants = insert t.slug t s.tenants })
]

-- `none` is `ErrNotFound`.
unfoldable pub get_tenant : MemStore → Text → Option Tenant
get_tenant s slug = lookup slug s.tenants

insert_by_created : Tenant → List Tenant → List Tenant
insert_by_created t [] = t ∷ []
insert_by_created t (u ∷ us) =
    if ltb u.created_at t.created_at then u ∷ insert_by_created t us else t ∷ u ∷ us

sort_by_created : List Tenant → List Tenant
unfolding insert_by_created
sort_by_created [] = []
sort_by_created (t ∷ ts) = insert_by_created t (sort_by_created ts)

unfoldable pub list_tenants : MemStore → List Tenant
unfolding sort_by_created
list_tenants s = sort_by_created (map (λ kv. kv.1) s.tenants)

unfoldable pub update_tenant : MemStore → Tenant → Option Error × MemStore
update_tenant s t = elim (lookup t.slug s.tenants) [
  | none ↦ (some err_not_found, s)
  | some _ ↦ (none, record s { tenants = insert t.slug t s.tenants })
]

unfoldable pub count_tenants : MemStore → ℕ
count_tenants s = length s.tenants

unfoldable pub create_job : MemStore → ProvisioningJob → MemStore
create_job s j = record s { jobs = insert j.id j s.jobs }

unfoldable pub update_job : MemStore → ProvisioningJob → Option Error × MemStore
update_job s j = elim (lookup j.id s.jobs) [
  | none ↦ (some err_not_found, s)
  | some _ ↦ (none, record s { jobs = insert j.id j s.jobs })
]

unfoldable pub get_job : MemStore → Text → Option ProvisioningJob
get_job s id = lookup id s.jobs
