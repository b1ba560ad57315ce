-- ===== src/Httpapi.antt =====
-- internal/httpapi: the API's authentication, and the arguments of its handlers. The routes are left out.
pub mod Auth
pub mod Requests
pub mod Queries
pub mod Reports
pub mod Health
