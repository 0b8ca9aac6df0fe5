-- ===== src/Identity.antt =====
-- internal/identity: who may do what, and the organizations and sites that they act on.
pub mod Authorization
pub mod Organization
pub mod Service
pub mod OrganizationStore
pub mod SiteReader
