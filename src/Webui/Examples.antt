-- ===== src/Webui/Examples.antt =====
-- A buffer of two lines with a subscriber, and the page of a table.
use bqcubbit.Base.{◌≤◌, codes, [], ◌∷◌, ◌≡◌, refl, All, length}
use bqcubbit.Webui.{LogBuffer, channel_size, new_log_buffer, table_detail}
use bqcubbit.Webui.Buffer.{wrote, subscribed, received, run_events, log_buffer_bounds}

abbrev used : LogBuffer
used =
    run_events
      (wrote (codes "a") ∷ subscribed ∷ wrote (codes "b") ∷ received 0 ∷ wrote (codes "c") ∷ [])
      (new_log_buffer 2)

log_buffer_bounds_example :
    (used.lines ≡ codes "b" ∷ codes "c" ∷ [])
    × (length used.lines ≤ 2)
    × All (λ s. length s.waiting ≤ channel_size) used.subs
log_buffer_bounds_example =
    log_buffer_bounds 2
      (wrote (codes "a") ∷ subscribed ∷ wrote (codes "b") ∷ received 0 ∷ wrote (codes "c") ∷ [])

-- The pattern of the route has no wildcards, so PathValue gives the empty text.
no_wildcards : (table_detail (λ name. [])).title ≡ codes "."
unfolding table_detail
no_wildcards = refl
