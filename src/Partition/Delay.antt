-- ===== src/Partition/Delay.antt =====
-- The retry delay.
use cue.Base.{arith}
use cue.Base.Int.{ℤ, pos, ◌≤ℤ◌, ◌<ℤ◌}
use cue.Partition.State.{PartitionConfig, calculate_retry_delay_sec}

-- The delay is at least a second and at most 20 seconds, for every retry count.
pub calculate_retry_delay_sec_bounds :
    (config : PartitionConfig) (n : ℤ)
    → (pos 1 ≤ℤ calculate_retry_delay_sec config n) × (calculate_retry_delay_sec config n ≤ℤ pos 20)
unfolding calculate_retry_delay_sec
calculate_retry_delay_sec_bounds config n = (ground arith, ground arith)

-- The delay is no longer than a positive `MaxBackoffSec`, for every retry count.
pub calculate_retry_delay_sec_backoff :
    (config : PartitionConfig) (n : ℤ)
    → pos 0 <ℤ config.max_backoff_sec
    → calculate_retry_delay_sec config n ≤ℤ config.max_backoff_sec
unfolding calculate_retry_delay_sec
calculate_retry_delay_sec_backoff config n h = ground arith

-- A later retry waits at least as long as an earlier one.
pub calculate_retry_delay_sec_mono :
    (config : PartitionConfig) (n m : ℤ)
    → n ≤ℤ m
    → calculate_retry_delay_sec config n ≤ℤ calculate_retry_delay_sec config m
unfolding calculate_retry_delay_sec
calculate_retry_delay_sec_mono config n m h = ground arith
