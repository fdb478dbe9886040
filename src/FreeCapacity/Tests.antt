-- ===== src/FreeCapacity/Tests.antt =====
-- One slot and a queue of two: the second and third callers wait, a fourth is turned away.
use gridix_infra.Prelude.{◌≡◌, refl, [], ◌∷◌}
use gridix_infra.FreeCapacity.{FreeCapacity, enter, capacity_full, cancel_queued}
use gridix_infra.FreeCapacity.Bounds.{
  Reach, start, next, enters_holding, enters_queued, IsBounded, Reach-IsBounded,
}

abbrev busy : FreeCapacity
busy = record {
  slots = 1;
  queue_depth = 2;
  waiting = 2;
  free = 0;
  queue = 2 ∷ 3 ∷ [];
  woken = [];
  holders = 1;
}

path_to_busy : Reach 1 2 busy
unfolding enter
path_to_busy =
    next (next (next start (enters_holding 1 refl)) (enters_queued 2 refl)) (enters_queued 3 refl)

fourth_refused : enter 4 busy ≡ capacity_full
unfolding enter
fourth_refused = refl

Reach-IsBounded_example : IsBounded 1 2 busy
Reach-IsBounded_example = Reach-IsBounded path_to_busy

second_abandons : (cancel_queued 0 busy).waiting ≡ 1
unfolding cancel_queued
second_abandons = refl
