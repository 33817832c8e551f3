-- ===== src/Tests/Staging.antt =====
-- src/bridge/store.ts: concrete runs of the staged files.
use vkodex.Prelude.{
  ℕ, ◌+◌, ◌*◌, ◌≤◌, ◌≡◌, refl, Bool, true, false, Option, none, some, List, [], ◌∷◌, ◌++◌, ok, err,
  arith, not, map, any, if◌then◌else◌,
}
use vkodex.Prelude
use vkodex.Prelude.JsText.{Text, codes, ◌===◌}
use vkodex.OperationJournal.Tables.{update_rows, count_rows}
use vkodex.OperationJournal.Rows.{sum_rows}
use vkodex.Bridge.Staging.Tables.{
  Stages, is_of, every_row, stage_reserved_bytes, stage_reserved_count, is_charged, recycle_state,
}
use vkodex.Bridge.Staging.Calls.{
  StageRequest, StageCall, reserve, mark_ready, recycle_pending, recycle_done, run, step,
  reserve_stage, reserve_found, find_stage, over_limit, mark_stage_ready,
  mark_stage_recycle_pending, pending_from, mark_stage_recycled,
}
use vkodex.Bridge.Staging.Bounds.{stage_quotas_kept}

abbrev no_stages : Stages
no_stages = record { reservations = []; recycling = []; abandoned = []; legacy_unaccounted = false }

abbrev request : Text → ℕ → StageRequest
request key bytes = record {
  file_key = key;
  binding_id = codes "b";
  operation_id = codes "op";
  bytes = bytes;
  path = key;
  free = none;
  writer = none;
}

abbrev calls : List StageCall
calls =
    reserve (request (codes "a") 200000000) 1
    ∷ reserve (request (codes "c") 200000000) 2
    ∷ reserve (request (codes "d") 200000000) 3
    ∷ []

stage_quotas_kept_example :
    (stage_reserved_bytes (is_of (codes "b") (codes "op")) (run no_stages calls)
      ≤ 512 * 1024 * 1024)
    × (stage_reserved_count (is_of (codes "b") (codes "op")) (run no_stages calls) ≤ 256)
    × (stage_reserved_bytes every_row (run no_stages calls) ≤ 2 * 1024 * 1024 * 1024)
    × (stage_reserved_count every_row (run no_stages calls) ≤ 2048)
stage_quotas_kept_example = stage_quotas_kept no_stages calls (codes "b") (codes "op") refl

-- The third file is over the operation's limit.
third_refused : stage_reserved_bytes every_row (run no_stages calls) ≡ 400000000
unfolding run step reserve_stage reserve_found find_stage over_limit stage_reserved_bytes
    stage_reserved_count sum_rows is_charged recycle_state ◌===◌ Prelude.any
third_refused = refl

abbrev recycling_calls : List StageCall
recycling_calls =
    reserve (request (codes "a") 7) 1
    ∷ mark_ready (codes "a") (codes "a")
    ∷ recycle_pending (codes "a") (codes "a") 4
    ∷ recycle_done (codes "a") (codes "a") 5
    ∷ []

released : stage_reserved_bytes every_row (run no_stages recycling_calls) ≡ 0
unfolding run step reserve_stage reserve_found find_stage over_limit stage_reserved_bytes
    stage_reserved_count sum_rows is_charged recycle_state ◌===◌ mark_stage_ready
    mark_stage_recycle_pending pending_from mark_stage_recycled update_rows count_rows Prelude.any
released = refl
