-- ===== src/Errors.antt =====
-- The error values that the gateway's packages tell apart, and Go's pair of a value and an error.
use llms_chaos.Prelude.{Bool, true, false}

-- `canceled` and `deadline_exceeded` are the context package's; `net_timeout` is a `net.Error` that
-- answers `Timeout()`; `busy` and `no_hedge` are the proxy's own; `failed` is any other error.
pub data Error : Type 0 where
  canceled deadline_exceeded net_timeout busy no_hedge failed : Error

-- `(T, error)`: with an error the value is the zero value, which no caller reads.
pub data Result {ℓ} (T : Type ℓ) : Type ℓ where
  ok : T → Result T
  err : Error → Result T

-- `errors.Is(err, errBusy)`
abbrev pub is_busy : Error → Bool
is_busy busy = true
is_busy _ = false
