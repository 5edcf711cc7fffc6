-- ===== src/Metrics/Clamp.antt =====
-- What is available is never negative.
use wordpress_manager_operat.Prelude.{ℕ, ◌≡◌, ◌-◌, arith}
use wordpress_manager_operat.Int64.{IsSmall}
use wordpress_manager_operat.Metrics.{avail}

-- On amounts that are not negative `avail` is the difference, or 0 where more is used than there is.
pub avail_lem : (a u : ℕ) → IsSmall a → IsSmall u → avail a u ≡ a - u
unfolding avail
avail_lem a u ha hu = ground arith
