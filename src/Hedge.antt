-- ===== src/Hedge.antt =====
-- gateway/internal/hedge/hedge.go: the budget after which a request is hedged, and the race of the
-- two requests.
pub mod Race
pub mod Seconds
pub mod Budget
