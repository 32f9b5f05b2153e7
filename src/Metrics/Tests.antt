-- ===== src/Metrics/Tests.antt =====
-- The counters after a few calls, and the bounds of the windows there.
use dnn_node.Base.{◌≡◌, refl, arith}
use dnn_node.Base.Int.{pos, ◌+ℤ◌, ◌-ℤ◌}
use dnn_node.Metrics.{
  Reaches, here, called, new_metrics, perform, peer_connected, peer_disconnected, resolution_time,
  sync_time, connected, disconnected, resetting, calculate_average, push_bounded,
  record_resolution_time,
}
use dnn_node.Metrics.Windows.{IsMeasured, Reaches-IsMeasured}

-- Two resolutions, a run of the synchronisation, and a reset.
abbrev history : Reaches (new_metrics 0) (
    perform (resetting 9) (
      perform
        (sync_time 8 (pos 7))
        (perform (resolution_time (pos 4)) (perform (resolution_time (pos 2)) (new_metrics 0)))))
history =
    called
      (called (called (called here (resolution_time (pos 2))) (resolution_time (pos 4)))
        (sync_time 8 (pos 7)))
      (resetting 9)

Reaches-IsMeasured_example : IsMeasured 10 (
    perform (resetting 9) (
      perform
        (sync_time 8 (pos 7))
        (perform (resolution_time (pos 4)) (perform (resolution_time (pos 2)) (new_metrics 0)))))
Reaches-IsMeasured_example =
    Reaches-IsMeasured 10 0 history (omega arith)
      ((((tt, (2, refl, omega arith)), (4, refl, omega arith)), (7, refl, omega arith)), tt)

average :
    (perform
      (resolution_time (pos 4))
      (perform (resolution_time (pos 2)) (new_metrics 0))).average_resolution_time
    ≡ pos 3
unfolding perform record_resolution_time push_bounded calculate_average new_metrics ◌+ℤ◌
average = refl

one_peer :
    (perform disconnected (perform disconnected (perform connected (new_metrics 0)))).current_peers
    ≡ pos 0
unfolding perform peer_connected peer_disconnected new_metrics ◌+ℤ◌ ◌-ℤ◌
one_peer = refl
