-- ===== src/Saga/Composite.antt =====
-- The activity types of asceticddd/saga/fallback_activity.go and parallel_activity.go, and the
-- addresses of their queues. Their work is to carry out whole routing slips: Saga/Fallback.antt and
-- Saga/Parallel.antt. The slips are shared pointers, so each operation returns the slips as it
-- leaves them. The slips of one activity are taken to be different ones: a pointer that is listed
-- twice would be one slip in the source, and is two here.
use ascetic_ddd_go.Base.{String}

pub data CompositeType : Type 0 where
  new_fallback_activity new_parallel_activity : CompositeType

unfoldable pub work_item_queue_address : CompositeType → String
work_item_queue_address new_fallback_activity = "sb://./fallback"
work_item_queue_address new_parallel_activity = "sb://./parallel"

unfoldable pub compensation_queue_address : CompositeType → String
compensation_queue_address new_fallback_activity = "sb://./fallbackCompensation"
compensation_queue_address new_parallel_activity = "sb://./parallelCompensation"
