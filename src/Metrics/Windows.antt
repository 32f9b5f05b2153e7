-- ===== src/Metrics/Windows.antt =====
-- The windows of measurements and their averages.
use native.Mathlib.Nat.{le_of_mul-le-mul_left, mul-le-mul_right}
use dnn_node.Base.{
  ℕ, zero, suc, ◌+◌, ◌-◌, ◌*◌, ◌/◌, ◌≤◌, ◌≡◌, refl, List, [], ◌∷◌, ◌++◌, arith, ltb, length, drop,
  All, All-append, Bool-cases, inl, inr, ltb→lt,
}
use dnn_node.Base.Int.{ℤ, pos, max_int64, +ℤ_pos}
use dnn_node.Metrics.{
  Metrics, Call, Reaches, here, called, perform, new_metrics, calculate_average, sum_from,
  push_bounded, resolution_time, sync_time, resetting, event_received, event_published,
  event_rejected, name_resolved, resolution_failed, cache_hit, cache_miss, block_synced, connected,
  disconnected, connection_count, peer_count, database_size_known,
}

-- A duration from 0 to a limit.
abbrev pub IsWithin : ℕ → ℤ → Type 0
IsWithin limit d = (a : ℕ) × (d ≡ pos a) × (a ≤ limit)

drop-All : (limit n : ℕ) (xs : List ℤ) → All (IsWithin limit) xs → All (IsWithin limit) (drop n xs)
drop-All limit zero xs h = h
drop-All limit (suc n) [] h = h
drop-All limit (suc n) (x ∷ xs) h = drop-All limit n xs h.1

length-drop : (n : ℕ) (xs : List ℤ) → length (drop n xs) ≡ length xs - n
length-drop zero xs = omega arith
length-drop (suc n) [] = omega arith
length-drop (suc n) (x ∷ xs) = omega (arith, length-drop n xs)

length-push_bounded :
    (limit : ℕ) (times : List ℤ) (d : ℤ) → length (push_bounded limit times d) ≤ limit
unfolding push_bounded
length-push_bounded limit times d = elim (Bool-cases (ltb limit (length (times ++ (d ∷ []))))) [
  | inl full ↦
      rw (full, length-drop (length (times ++ (d ∷ [])) - limit) (times ++ (d ∷ [])))
        (omega (arith, ltb→lt limit (length (times ++ (d ∷ []))) full))
  | inr free ↦ rw free (ground arith)
]

push_bounded-All :
    (size limit : ℕ) (times : List ℤ) (d : ℤ)
    → All (IsWithin limit) times
    → IsWithin limit d
    → All (IsWithin limit) (push_bounded size times d)
unfolding push_bounded
push_bounded-All size limit times d h k =
    let whole = All-append (IsWithin limit) times (d ∷ []) h (k, tt) in
    elim (Bool-cases (ltb size (length (times ++ (d ∷ []))))) [
      | inl full ↦ rw full (drop-All limit _ (times ++ (d ∷ [])) whole)
      | inr free ↦ rw free whole
    ]

div_bound : (s n limit : ℕ) → s ≤ suc n * limit → s / suc n ≤ limit
div_bound s n limit h = le_of_mul-le-mul_left {k = suc n} (omega arith) (omega arith)

-- A sum of bounded durations does not wrap.
sum_from-bounded :
    (limit acc : ℕ) (times : List ℤ)
    → All (IsWithin limit) times
    → acc + length times * limit ≤ max_int64
    → (s : ℕ) × (sum_from (pos acc) times ≡ pos s) × (s ≤ acc + length times * limit)
sum_from-bounded limit acc [] h k = (acc, refl, omega arith)
sum_from-bounded limit acc (t ∷ times) h k =
    let (a, e, le) = h.0 in
    let wide : acc + a + length times * limit ≤ acc + suc (length times) * limit = omega arith in
    let (s, total, bound) = sum_from-bounded limit (acc + a) times h.1 (omega arith) in
    (s, rw (e, +ℤ_pos acc a (omega arith)) total, omega arith)

calculate_average-IsWithin :
    (limit : ℕ) (times : List ℤ)
    → All (IsWithin limit) times
    → length times * limit ≤ max_int64
    → IsWithin limit (calculate_average times)
unfolding calculate_average
calculate_average-IsWithin limit [] h k = (0, refl, omega arith)
calculate_average-IsWithin limit (t ∷ times) h k =
    let (s, total, bound) = sum_from-bounded limit 0 (t ∷ times) h (omega arith) in
    (s / length (t ∷ times), rw total refl, div_bound s (length times) limit (omega arith))

-- A window of at most `size` durations, each from 0 to a limit, and such an average.
pub record IsWindow (limit size : ℕ) (times : List ℤ) (average : ℤ) : Type 0 where
  pub all_within : All (IsWithin limit) times
  pub fits : length times ≤ size
  pub average_within : IsWithin limit average

abbrev pub IsMeasured : ℕ → Metrics → Type 0
IsMeasured limit m =
    IsWindow limit 1000 m.resolution_times m.average_resolution_time
    × IsWindow limit 100 m.sync_times m.average_sync_time

-- The duration that a call measures is from 0 to the limit.
abbrev pub IsFair : ℕ → Call → Type 0
IsFair limit (resolution_time d) = IsWithin limit d
IsFair limit (sync_time now d) = IsWithin limit d
IsFair limit _ = Unit

push_bounded-IsWindow :
    (limit size : ℕ) (times : List ℤ) (average d : ℤ)
    → size ≤ 1000
    → 1000 * limit ≤ max_int64
    → IsWindow limit size times average
    → IsWithin limit d
    → IsWindow limit size
        (push_bounded size times d)
        (calculate_average (push_bounded size times d))
push_bounded-IsWindow limit size times average d s l h k =
    let fits = length-push_bounded size times d in
    let scaled = mul-le-mul_right limit fits in
    let scaled' = mul-le-mul_right limit s in
    let within = push_bounded-All size limit times d h.all_within k in
    record {
      all_within = within;
      fits = fits;
      average_within =
          calculate_average-IsWithin limit (push_bounded size times d) within (omega arith);
    }

empty-IsWindow :
    (limit size : ℕ) (times : List ℤ) (average : ℤ)
    → IsWindow limit size times average
    → IsWindow limit size [] average
empty-IsWindow limit size times average h = record {
  all_within = tt;
  fits = omega arith;
  average_within = h.average_within;
}

perform-IsMeasured :
    (limit : ℕ) (call : Call) (m : Metrics)
    → 1000 * limit ≤ max_int64
    → IsFair limit call
    → IsMeasured limit m
    → IsMeasured limit (perform call m)
unfolding perform
perform-IsMeasured limit (resolution_time d) m l k h =
    (push_bounded-IsWindow limit 1000 m.resolution_times _ d (omega arith) l h.0 k, h.1)
perform-IsMeasured limit (sync_time now d) m l k h =
    (h.0, push_bounded-IsWindow limit 100 m.sync_times _ d (omega arith) l h.1 k)
perform-IsMeasured limit (resetting now) m l k h = (
  empty-IsWindow limit 1000 m.resolution_times _ h.0,
  empty-IsWindow limit 100 m.sync_times _ h.1,
)
perform-IsMeasured limit event_received m l k h = h
perform-IsMeasured limit event_published m l k h = h
perform-IsMeasured limit event_rejected m l k h = h
perform-IsMeasured limit name_resolved m l k h = h
perform-IsMeasured limit resolution_failed m l k h = h
perform-IsMeasured limit cache_hit m l k h = h
perform-IsMeasured limit cache_miss m l k h = h
perform-IsMeasured limit block_synced m l k h = h
perform-IsMeasured limit connected m l k h = h
perform-IsMeasured limit disconnected m l k h = h
perform-IsMeasured limit (connection_count n) m l k h = h
perform-IsMeasured limit (peer_count n) m l k h = h
perform-IsMeasured limit (database_size_known n) m l k h = h

-- The calls of a history, each with a duration from 0 to the limit.
abbrev pub AreFair : {m m' : Metrics} → ℕ → Reaches m m' → Type 0
AreFair limit here = Unit
AreFair limit (called before call) = AreFair limit before × IsFair limit call

-- In every state that calls on new metrics lead to, where each measured duration is from 0 to a
-- limit of which a thousand fit into an int64, the windows have at most 1000 and 100 durations, all
-- from 0 to the limit, and so are both averages.
pub Reaches-IsMeasured :
    (limit now : ℕ) {m : Metrics} (history : Reaches (new_metrics now) m)
    → 1000 * limit ≤ max_int64
    → AreFair limit history
    → IsMeasured limit m
Reaches-IsMeasured limit now here l h =
    let none_yet : IsWindow limit 1000 [] (pos 0) = record {
      all_within = tt;
      fits = omega arith;
      average_within = (0, refl, omega arith);
    } in
    let none_yet' : IsWindow limit 100 [] (pos 0) = record {
      all_within = tt;
      fits = omega arith;
      average_within = (0, refl, omega arith);
    } in
    unfold new_metrics in (none_yet, none_yet')
Reaches-IsMeasured limit now (called {m'} before call) l h =
    perform-IsMeasured limit call m' l h.1 (Reaches-IsMeasured limit now before l h.0)
