-- ===== src/Auth.antt =====
-- Who may come in: the limiter of logins (services/main-api/internal/auth/ratelimit.go) and the check
-- of an agent's token (services/main-api/internal/agentauth).
pub mod RateLimit
pub mod Window
pub mod AgentAuth
pub mod Revoked
