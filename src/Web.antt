-- ===== src/Web.antt =====
-- labfunctions/security/web.py and auth_bp.py: the handlers of the API server.
pub mod Auth
pub mod Login
