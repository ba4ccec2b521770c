-- ===== src/Tenant.antt =====
-- Tenants: schema names (Backend/app/database.py), organization keys, the schema of a request
-- and the enabled modules (Backend/app/services/tenant.py).
pub mod SchemaName
pub mod OrgKey
pub mod Modules
pub mod Resolve
