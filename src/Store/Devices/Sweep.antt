-- ===== src/Store/Devices/Sweep.antt =====
-- The status sweep, against the status that a device's silence calls for.
use rdoc_cam_hub.Common.{
  ℕ, ◌+◌, ◌≡◌, refl, ap, ap₂, ◌∙◌, List, [], ◌∷◌, map, arith, update_where, Option, some, none, ltb,
  if◌then◌else◌,
}
use rdoc_cam_hub.Store.{
  Device, DeviceStatus, enrolled, online, stale, offline, Database, Env, ok, err, commit,
  rolled_back, DbError,
}
use rdoc_cam_hub.Store.Devices.{
  Marked, mark, mark_stale, mark_stale_second, goes_offline, goes_stale, with_status,
}

-- What the time since the last heartbeat makes of a status. Only a device that has been online
-- goes stale or offline, and one that is stale does not come back by itself.
unfoldable pub by_silence : Env → ℕ → ℕ → Option ℕ → DeviceStatus → DeviceStatus
by_silence env stale_after offline_after none status = status
by_silence env stale_after offline_after (some seen) enrolled = enrolled
by_silence env stale_after offline_after (some seen) offline = offline
by_silence env stale_after offline_after (some seen) stale =
    if ltb (seen + offline_after) env.app_now then offline else stale
by_silence env stale_after offline_after (some seen) online =
    if ltb (seen + offline_after) env.app_now
    then offline
    else if ltb (seen + stale_after) env.app_now
    then stale
    else online

module _ (env : Env) (stale_after offline_after : ℕ) where
  marked_one :
      (dev : Device) (seen : Option ℕ) (status : DeviceStatus)
      → dev.last_seen_at ≡ seen
      → dev.status ≡ status
      → let dev' =
          if goes_offline env offline_after dev then with_status env offline dev else dev in
        (if goes_stale env stale_after dev' then with_status env stale dev' else dev').status
        ≡ by_silence env stale_after offline_after seen status
  unfolding by_silence
  marked_one dev none enrolled e f = ground arith
  marked_one dev none online e f = ground arith
  marked_one dev none stale e f = ground arith
  marked_one dev none offline e f = ground arith
  marked_one dev (some t) enrolled e f = ground arith
  marked_one dev (some t) online e f = ground arith
  marked_one dev (some t) stale e f = ground arith
  marked_one dev (some t) offline e f = ground arith

  marked_all :
      (devices : List Device)
      → map
          (λ (dev : Device). dev.status)
          (update_where
            (goes_stale env stale_after)
            (with_status env stale)
            (update_where (goes_offline env offline_after) (with_status env offline) devices))
        ≡ map
            (λ (dev : Device). by_silence env stale_after offline_after dev.last_seen_at dev.status)
            devices
  unfolding update_where
  marked_all [] = refl
  marked_all (dev ∷ devices) =
      ap₂ ◌∷◌ (marked_one dev dev.last_seen_at dev.status refl refl) (marked_all devices)

  module _ (d : Database) where
    mark_stale_table :
        (counts : Marked)
        → (mark_stale env d stale_after offline_after).0 ≡ ok counts
        → (mark_stale env d stale_after offline_after).1.devices
          ≡ update_where
              (goes_stale env stale_after)
              (with_status env stale)
              (update_where (goes_offline env offline_after) (with_status env offline) d.devices)
    unfolding mark_stale mark_stale_second mark commit rolled_back
    mark_stale_table counts e = ground arith

    -- A sweep that succeeds gives each device the status that its silence calls for.
    pub mark_stale_statuses :
        (counts : Marked)
        → (mark_stale env d stale_after offline_after).0 ≡ ok counts
        → map (λ (dev : Device). dev.status) (mark_stale env d stale_after offline_after).1.devices
          ≡ map
              (λ (dev : Device).
                by_silence env stale_after offline_after dev.last_seen_at dev.status)
              d.devices
    mark_stale_statuses counts e =
        ap (map (λ (dev : Device). dev.status)) (mark_stale_table counts e) ∙ marked_all d.devices

    -- A sweep that fails, at any of its statements, leaves every device as it was.
    pub mark_stale_error_keeps :
        (x : DbError)
        → (mark_stale env d stale_after offline_after).0 ≡ err x
        → (mark_stale env d stale_after offline_after).1.devices ≡ d.devices
    unfolding mark_stale mark_stale_second mark commit rolled_back
    mark_stale_error_keeps x e = ground arith
