-- ===== src/Metrics.antt =====
-- internal/metrics/metrics.go: the counters of a node. Durations and counters are int64.
-- The rates of `GetSnapshot` are floating-point numbers and are left out.
pub mod Windows
mod Tests
use dnn_node.Base.{
  ℕ, ◌+◌, ◌-◌, ◌*◌, ◌^◌, List, [], ◌∷◌, ◌++◌, ltb, if◌then◌else◌, length, drop, is_nil,
}
use dnn_node.Base.Int.{ℤ, pos, negsuc, ◌+ℤ◌, ◌-ℤ◌, div_ℤ, ltb_ℤ}

pub record Metrics : Type 0 where
  pub events_received : ℤ
  pub events_published : ℤ
  pub events_rejected : ℤ
  pub names_resolved : ℤ
  pub resolution_errors : ℤ
  pub peers_connected : ℤ
  pub peers_disconnected : ℤ
  pub blocks_synced : ℤ
  pub current_connections : ℤ
  pub current_peers : ℤ
  pub database_size : ℤ
  pub cache_hits : ℤ
  pub cache_misses : ℤ
  pub average_resolution_time : ℤ
  pub average_sync_time : ℤ
  pub last_sync_time : ℕ
  pub resolution_times : List ℤ
  pub sync_times : List ℤ
  pub start_time : ℕ

unfoldable pub new_metrics : ℕ → Metrics
new_metrics now = record {
  events_received = pos 0;
  events_published = pos 0;
  events_rejected = pos 0;
  names_resolved = pos 0;
  resolution_errors = pos 0;
  peers_connected = pos 0;
  peers_disconnected = pos 0;
  blocks_synced = pos 0;
  current_connections = pos 0;
  current_peers = pos 0;
  database_size = pos 0;
  cache_hits = pos 0;
  cache_misses = pos 0;
  average_resolution_time = pos 0;
  average_sync_time = pos 0;
  last_sync_time = 0;
  resolution_times = [];
  sync_times = [];
  start_time = now;
}

-- `x++`
abbrev pub increment : ℤ → ℤ
increment x = x +ℤ pos 1

unfoldable pub increment_events_received : Metrics → Metrics
increment_events_received m = record m { events_received = increment m.events_received }

unfoldable pub increment_events_published : Metrics → Metrics
increment_events_published m = record m { events_published = increment m.events_published }

unfoldable pub increment_events_rejected : Metrics → Metrics
increment_events_rejected m = record m { events_rejected = increment m.events_rejected }

unfoldable pub increment_names_resolved : Metrics → Metrics
increment_names_resolved m = record m { names_resolved = increment m.names_resolved }

unfoldable pub increment_resolution_errors : Metrics → Metrics
increment_resolution_errors m = record m { resolution_errors = increment m.resolution_errors }

unfoldable pub increment_cache_hit : Metrics → Metrics
increment_cache_hit m = record m { cache_hits = increment m.cache_hits }

unfoldable pub increment_cache_miss : Metrics → Metrics
increment_cache_miss m = record m { cache_misses = increment m.cache_misses }

unfoldable pub increment_blocks_synced : Metrics → Metrics
increment_blocks_synced m = record m { blocks_synced = increment m.blocks_synced }

unfoldable pub update_connection_count : ℤ → Metrics → Metrics
update_connection_count count m = record m { current_connections = count }

unfoldable pub update_peer_count : ℤ → Metrics → Metrics
update_peer_count count m = record m { current_peers = count }

unfoldable pub update_database_size : ℤ → Metrics → Metrics
update_database_size size m = record m { database_size = size }

unfoldable pub peer_connected : Metrics → Metrics
peer_connected m = record m {
  peers_connected = increment m.peers_connected;
  current_peers = increment m.current_peers;
}

unfoldable pub peer_disconnected : Metrics → Metrics
peer_disconnected m = record m {
  peers_disconnected = increment m.peers_disconnected;
  current_peers =
      if ltb_ℤ (pos 0) m.current_peers then m.current_peers -ℤ pos 1 else m.current_peers;
}

-- `total += t`, from the left.
abbrev pub sum_from : ℤ → List ℤ → ℤ
sum_from total [] = total
sum_from total (t ∷ times) = sum_from (total +ℤ t) times

unfoldable pub calculate_average : List ℤ → ℤ
calculate_average times =
    if is_nil times then pos 0 else div_ℤ (sum_from (pos 0) times) (length times)

-- What remains of a window when a measurement is appended.
unfoldable pub push_bounded : ℕ → List ℤ → ℤ → List ℤ
push_bounded limit times duration =
    let all_times = times ++ (duration ∷ []) in
    if ltb limit (length all_times) then drop (length all_times - limit) all_times else all_times

unfoldable pub record_resolution_time : ℤ → Metrics → Metrics
unfolding push_bounded calculate_average
record_resolution_time duration m =
    let times = push_bounded 1000 m.resolution_times duration in
    record m { resolution_times = times; average_resolution_time = calculate_average times }

unfoldable pub record_sync_time : ℕ → ℤ → Metrics → Metrics
unfolding push_bounded calculate_average
record_sync_time now duration m =
    let times = push_bounded 100 m.sync_times duration in
    record m {
      sync_times = times;
      last_sync_time = now;
      average_sync_time = calculate_average times;
    }

-- Neither the gauges nor the averages are reset.
unfoldable pub reset : ℕ → Metrics → Metrics
reset now m = record m {
  events_received = pos 0;
  events_published = pos 0;
  events_rejected = pos 0;
  names_resolved = pos 0;
  resolution_errors = pos 0;
  peers_connected = pos 0;
  peers_disconnected = pos 0;
  blocks_synced = pos 0;
  cache_hits = pos 0;
  cache_misses = pos 0;
  resolution_times = [];
  sync_times = [];
  start_time = now;
}

-- The calls of the methods.
pub data Call : Type 0 where
  event_received event_published event_rejected name_resolved resolution_failed : Call
  cache_hit cache_miss block_synced connected disconnected : Call
  connection_count peer_count database_size_known resolution_time : ℤ → Call
  sync_time : ℕ → ℤ → Call
  resetting : ℕ → Call

unfoldable pub perform : Call → Metrics → Metrics
unfolding increment_events_received increment_events_published increment_events_rejected
    increment_names_resolved increment_resolution_errors increment_cache_hit increment_cache_miss
    increment_blocks_synced update_connection_count update_peer_count update_database_size
    peer_connected peer_disconnected record_resolution_time record_sync_time reset
perform event_received m = increment_events_received m
perform event_published m = increment_events_published m
perform event_rejected m = increment_events_rejected m
perform name_resolved m = increment_names_resolved m
perform resolution_failed m = increment_resolution_errors m
perform cache_hit m = increment_cache_hit m
perform cache_miss m = increment_cache_miss m
perform block_synced m = increment_blocks_synced m
perform connected m = peer_connected m
perform disconnected m = peer_disconnected m
perform (connection_count n) m = update_connection_count n m
perform (peer_count n) m = update_peer_count n m
perform (database_size_known n) m = update_database_size n m
perform (resolution_time d) m = record_resolution_time d m
perform (sync_time now d) m = record_sync_time now d m
perform (resetting now) m = reset now m

-- A step of the counters by one call, and the states that calls lead to.
pub data Reaches (m : Metrics) : Metrics → Type 0 where
  here : Reaches m m
  called : {m' : Metrics} → Reaches m m' → (call : Call) → Reaches m (perform call m')
