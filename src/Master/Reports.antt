-- ===== src/Master/Reports.antt =====
-- Master/Master.ino: what a slave reports of its sensors, relays and groups (handleSensorInfo,
-- handleSensorData). `packet` has the bytes of the datagram, the code first.
use spu_energy_efficient_sys.Common.{
  ℕ, zero, suc, ◌+◌, Bool, true, false, not, ◌&&◌, Option, none, some, List, [], ◌∷◌, ◌++◌, ℤ, pos,
  get_elem?, get_or, set, replicate, ◌>>=◌, if◌then◌else◌,
}
use spu_energy_efficient_sys.Fifo.{Fifo}
use spu_energy_efficient_sys.Spu.{
  pir_dir, temp_dir, ir_dir, relay_dir, group_amount, turn_on_group_msg, turn_off_group_msg,
  max_slave_relay_amount,
}
use spu_energy_efficient_sys.SensorByte.{unpack}
use spu_energy_efficient_sys.Node.{RelayInfo, Packet, Node, Sent, new_relay, send_packet}
use spu_energy_efficient_sys.Node.Sensors.{handle_sensor_info}
use spu_energy_efficient_sys.Master.{Master, Group, Ip}

-- `groups[i] = true`, where the array has this index.
unfoldable pub mark_group : List Bool → ℕ → Option (List Bool)
mark_group groups i = get_elem? groups i >>= λ _. some (set groups i true)

-- The loop over the relays, for `k` of them from the index `i` on; `r` are those of the reporting
-- slave so far.
unfoldable pub report_relays :
    List Bool → List ℕ → ℕ → ℕ → List RelayInfo → List Bool → Option (List RelayInfo × List Bool)
unfolding mark_group
report_relays b packet i zero r groups = some (r, groups)
report_relays b packet i (suc k) r groups =
    let same = report_relays b packet (i + 1) k r groups in
    let more = get_elem? packet (i + 2) >>= λ group. get_elem? r i >>= λ x.
    mark_group groups group >>= λ groups'.
    report_relays b packet (i + 1) k (set r i (record x { connected = true; group = pos group }))
      groups' in
    if get_or b (i + relay_dir) false then more else same

module _ (f : Fifo Packet) where
  open f use {Queue}

  -- The last loop: the slave is told how its groups stand, from the index `i` on.
  unfoldable pub tell_groups : Node Queue Ip → List Bool → List Group → ℕ → Option (Sent Queue Ip)
  tell_groups n [] gs i = some (n, [])
  tell_groups n (c ∷ cs) [] i = none
  tell_groups n (c ∷ cs) (x ∷ gs) i =
      (if c
        then send_packet f n
            (if x.is_on && not x.is_sleeping then turn_on_group_msg else turn_off_group_msg)
            (pos i ∷ [])
        else some (n, []))
      >>= λ (n', out). tell_groups n' cs gs (i + 1) >>= λ (n'', more). some (n'', out ++ more)

  -- The call of the node's `handleSensorInfo`, and what the slave is told.
  unfoldable pub record_info :
      Node Queue Ip
      → List Group
      → List Bool
      → List RelayInfo
      → List Bool
      → ℤ
      → Option (Sent Queue Ip)
  unfolding tell_groups
  record_info n gs b r groups ir_group =
      handle_sensor_info n (get_or b temp_dir false) (get_or b pir_dir false)
        (get_or b ir_dir false) r ir_group
      >>= λ n'. tell_groups n' groups gs 0

  -- The relays and the group of the infrared sender, by the eight bits.
  unfoldable pub report_flags :
      Node Queue Ip → List Group → List ℕ → ℤ × ℤ → List Bool → Option (Sent Queue Ip)
  unfolding report_relays record_info new_relay mark_group
  report_flags n gs packet pins b =
      report_relays b packet 0 max_slave_relay_amount (new_relay pins.0 ∷ new_relay pins.1 ∷ [])
        (replicate group_amount false)
      >>= λ (r, groups).
          (if get_or b ir_dir false
            then (get_elem? packet (max_slave_relay_amount + 2) >>= λ ir_group.
                mark_group groups ir_group >>= λ groups'. some (groups', pos ir_group))
            else some (groups, pos 0))
          >>= λ (groups', ir_group). record_info n gs b r groups' ir_group

  -- `handleSensorInfo`, for the node alone; `pins` are what stands in the `pin` of the two local
  -- relays, which their constructor leaves alone.
  unfoldable pub report_info : Node Queue Ip → List Group → List ℕ → ℤ × ℤ → Option (Sent Queue Ip)
  unfolding report_flags
  report_info n gs packet pins =
      get_elem? packet 1 >>= λ val. report_flags n gs packet pins (unpack val)

module _ {Queue Store Pins Timers : Type 0} where
  -- `handleSensorData`; a byte of the packet at a time.
  unfoldable pub handle_sensor_data :
      Master Queue Store Pins Timers
      → List ℕ
      → ℕ
      → Node Queue Ip
      → Option (Master Queue Store Pins Timers)
  handle_sensor_data m packet position n =
      if n.temperature_sensor_connected
      then (get_elem? packet position >>= λ t. get_elem? packet (position + 1) >>= λ h.
          let m' = record m { temperature = t; humidity = h } in
          some (
            if m.requested_from_panel
            then record m' { requested_from_panel = false; shown = m.shown ++ ((t, h) ∷ []) }
            else m'))
      else some m
