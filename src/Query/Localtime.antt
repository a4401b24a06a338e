-- ===== src/Query/Localtime.antt =====
-- `parseLocaltimeLine`: the rounding of the time difference to half hours.
use naemon_livestatus.Prelude.{◌+◌, ◌≤◌, arith, ℤ, pos, negsuc, pos_part, neg_part, ◌-ℤ◌}
use naemon_livestatus.Query.Headers.{half_hours, seconds}

-- The offset that parseLocaltimeLine makes of the difference of the two clocks lies within 900
-- seconds of it.
pub seconds-half_hours :
    (dif : ℤ)
    → (pos_part (seconds (half_hours dif)) + neg_part dif
        ≤ pos_part dif + neg_part (seconds (half_hours dif)) + 900)
      × (pos_part dif + neg_part (seconds (half_hours dif))
          ≤ pos_part (seconds (half_hours dif)) + neg_part dif + 900)
unfolding seconds half_hours ◌-ℤ◌
seconds-half_hours (pos n) = (ground arith, ground arith)
seconds-half_hours (negsuc n) = (ground arith, ground arith)
