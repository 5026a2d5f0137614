-- ===== src/Smap/Start.antt =====
-- smap/smap.c: `SMAPInitStart`, which starts the adapter in the caller's thread, and `SMAPStop`.
pub mod Agrees
use ps2eth.Prelude.{Bool, true, false, not, ◌&&◌, List, [], ◌∷◌, ◌++◌, if◌then◌else◌}
use ps2eth.Smap.Thread.{Thread, Phy, Call, intr_enable, mac_on, delay, set_alarm, link_up}

-- The driver's fields after the call, and the calls that it makes. `phy` is the outcome of `InitPHY`,
-- with the fields as it leaves them.
unfoldable pub smap_init_start : Phy → Thread → Thread × List Call
smap_init_start phy t =
    let t1 = record t {
      link_status = phy.link_status;
      net_dev_stop_flag = phy.net_dev_stop_flag;
    } in
    if not t.smap_is_initialized
    then (if phy.ok && not phy.net_dev_stop_flag
        then (
          record t1 { smap_is_initialized = true; enable_link_check_timer = true },
          intr_enable
              ∷ mac_on
              ∷ delay
              ∷ link_up
              ∷ (if not t.enable_link_check_timer then set_alarm ∷ [] else []),
        )
        else (record t1 { net_dev_stop_flag = false }, intr_enable ∷ []))
    else (t, [])

-- `SMAPStop`: the flag that it sets, besides the event SMAP_EVENT_STOP.
unfoldable pub smap_stop : Thread → Thread
smap_stop t = record t { net_dev_stop_flag = true }
