-- ===== src/Proxy/GhubInit.antt =====
-- src/ghub_init.rs: G HUB's requests at its start, as they were captured.
use rp_wheel_bridge.Base.{ℕ, List, ◌++◌}
mod First
mod Last
use First.{first_requests}
use Last.{last_requests}

-- `REQUESTS`
abbrev pub requests : List (ℕ × List ℕ)
requests = first_requests ++ last_requests
