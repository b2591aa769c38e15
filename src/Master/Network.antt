-- ===== src/Master/Network.antt =====
-- Master/Master.ino: the table of slaves, and what the master does with their messages and packets.
-- The menu on the display, which is told to refresh, is left out.
use spu_energy_efficient_sys.Common.{
  ℕ, zero, suc, ◌+◌, ◌-◌, ◌%◌, Bool, true, false, ◌&&◌, ◌||◌, Option, none, some, List, [], ◌∷◌,
  ◌++◌, ℤ, pos, get_elem?, get_or, set, length, ltb, ◌==◌, ◌>>=◌, if◌then◌else◌, map,
}
use spu_energy_efficient_sys.Eeprom.{Eeprom}
use spu_energy_efficient_sys.Fifo.{Fifo}
use spu_energy_efficient_sys.Spu.{
  connection_msg, ip_msg, received_msg, motion_detected_msg, sensor_data_msg, sensor_info_msg,
  state_msg, running_state, error_state, pending_state, pending_response_state, slave_ip_dir,
  max_ip_amount,
}
use spu_energy_efficient_sys.Node.{
  Packet, Datagram, Node, Sent, and_then, new_node, send_message, send_packet, send_ack,
  receive_ack, reconnect, error, set_ip, check_sent_packets, has_running_state, has_pending_state,
}
use spu_energy_efficient_sys.Master.{Master, Ip}
use spu_energy_efficient_sys.Master.Motion.{detect_slave_motion}
use spu_energy_efficient_sys.Master.Reports.{report_info, handle_sensor_data}

abbrev pub max_nodes : ℕ
max_nodes = 8

-- `==` of two addresses.
unfoldable pub same_ip : Ip → Ip → Bool
same_ip [] [] = true
same_ip [] (b ∷ bs) = false
same_ip (a ∷ others) [] = false
same_ip (a ∷ others) (b ∷ bs) = let same = same_ip others bs in a == b && same

-- The index of the first node with the address, from `i` on: `getNode(IPAddress)` and `nodeId`.
unfoldable pub get_node : {Queue : Type 0} → List (Node Queue Ip) → Ip → ℕ → Option ℕ
unfolding same_ip
get_node [] ip i = none
get_node (n ∷ ns) ip i =
    let others = get_node ns ip (i + 1) in if same_ip n.ip ip then some i else others

-- The same by the last byte: `getNode(int)` and `nodeFromIp`.
unfoldable pub node_from_ip : {Queue : Type 0} → List (Node Queue Ip) → ℕ → ℕ → Option ℕ
node_from_ip [] ip i = none
node_from_ip (n ∷ ns) ip i =
    let others = node_from_ip ns ip (i + 1) in if get_or n.ip 3 0 == ip then some i else others

module _ (e : Eeprom) where
  open e use {Store, read, write, commit}

  -- The loop of `getBaseIp` over `k` addresses from the `i`-th on.
  unfoldable pub highest_ip : Store → ℕ → ℕ → ℕ → ℕ
  highest_ip s base i zero = base
  highest_ip s base i (suc k) =
      let ip = read s (i + slave_ip_dir) in
      highest_ip s (if ltb base ip then ip else base) (i + 1) k

  unfoldable pub get_base_ip : Store → ℕ → ℕ
  unfolding highest_ip
  get_base_ip s base = highest_ip s base 0 max_ip_amount

  -- `storeIp`, with the last byte of the address.
  unfoldable pub store_ip : Store → ℕ → ℕ → Store
  store_ip s base last = commit (write s (base - 4 + slave_ip_dir) last)

module _ (f : Fifo Packet) where
  open f use {Queue}

  -- The loop of `checkNodeStatus`, every 30 seconds.
  unfoldable pub ask_status : List (Node Queue Ip) → List (Node Queue Ip) × List (Datagram Ip)
  unfolding has_running_state has_pending_state
  ask_status [] = ([], [])
  ask_status (n ∷ ns) =
      let (n', out) : Sent Queue Ip =
        if has_running_state n || has_pending_state n
        then send_message f n state_msg
        else (n, []) in
      let (ns', more) = ask_status ns in (n' ∷ ns', out ++ more)

  -- The loop of the master's `checkSentPackets`.
  unfoldable pub check_all_sent : List (Node Queue Ip) → List (Node Queue Ip) × List (Datagram Ip)
  check_all_sent [] = ([], [])
  check_all_sent (n ∷ ns) =
      let (n', out) = check_sent_packets f n in
      let (ns', more) = check_all_sent ns in (n' ∷ ns', out ++ more)

module _ (f : Fifo Packet) {Store Pins Timers : Type 0} where
  open f use {Queue}

  -- A call of a method of the node with the index `i`.
  abbrev pub call_node :
      Master Queue Store Pins Timers
      → ℕ
      → (Node Queue Ip → Option (Sent Queue Ip))
      → Option (Master Queue Store Pins Timers)
  call_node m i method = get_elem? m.nodes i >>= λ n.
      method n >>= λ (n', out). some (record m { nodes = set m.nodes i n'; sent = m.sent ++ out })

  unfoldable pub check_node_status : Master Queue Store Pins Timers → Master Queue Store Pins Timers
  unfolding ask_status
  check_node_status m =
      let (nodes, out) = ask_status f m.nodes in record m { nodes = nodes; sent = m.sent ++ out }

  unfoldable pub check_sent : Master Queue Store Pins Timers → Master Queue Store Pins Timers
  unfolding check_all_sent
  check_sent m =
      let (nodes, out) = check_all_sent f m.nodes in
      record m { nodes = nodes; sent = m.sent ++ out }

module _ (e : Eeprom) (f : Fifo Packet) {Pins Timers : Type 0} where
  open e use {Store}
  open f use {Queue}

  unfoldable pub send_new_ip :
      Master Queue Store Pins Timers → ℕ → Option (Master Queue Store Pins Timers)
  unfolding store_ip set_ip
  send_new_ip m i =
      let base = m.base_ip + 1 in
      let ip = 192 ∷ 168 ∷ 0 ∷ (base % 256) ∷ [] in
      call_node f (record m { base_ip = base; memory = store_ip e m.memory base (base % 256) }) i
        λ n. send_packet f n ip_msg (map pos ip) >>= λ (n', out). some (set_ip n' ip, out)

  -- `handleMessage`, from the node with the index `i`.
  unfoldable pub handle_message :
      Master Queue Store Pins Timers → ℕ → ℕ → Option (Master Queue Store Pins Timers)
  unfolding send_new_ip detect_slave_motion
  handle_message m message i = get_elem? m.nodes i >>= λ n.
      let ack =
        λ (m' : Master Queue Store Pins Timers). call_node f m' i λ n'. some (send_ack f n') in
      if message == connection_msg
      then (call_node f m i λ n'. some (reconnect f n'))
      else if message == ip_msg
      then send_new_ip m i
      else if n.state == pending_state
      then (if message == running_state
          then (call_node f m i λ n'. some (receive_ack f n'))
          else if message == error_state
          then (call_node f m i λ n'. some (error f n', []))
          else if message == motion_detected_msg
          then some (detect_slave_motion m)
          else some m)
        >>= ack
      else if n.state == pending_response_state
      then (if (message == received_msg) || (message == running_state)
          then (call_node f m i λ n'. some (receive_ack f n'))
          else some m)
      else if n.state == running_state
      then (if message == motion_detected_msg
          then (ack m >>= λ m'. some (detect_slave_motion m'))
          else ack m)
      else some m

  -- `handleData`; `pins` are for `report_info`.
  unfoldable pub handle_data :
      Master Queue Store Pins Timers → List ℕ → ℕ → ℤ × ℤ → Option (Master Queue Store Pins Timers)
  unfolding handle_sensor_data
  handle_data m packet i pins = get_elem? packet 0 >>= λ message. get_elem? m.nodes i >>= λ n.
      (if message == sensor_data_msg
        then handle_sensor_data m packet 1 n
        else if message == sensor_info_msg
        then (call_node f m i λ n'. report_info f n' m.groups packet pins)
        else some m)
      >>= λ m'. call_node f m' i λ n'. and_then (send_ack f n') λ n''. some (receive_ack f n'')

  -- `handlePacket`; `fresh` is what the constructor of a node leaves alone.
  unfoldable pub handle_packet :
      Master Queue Store Pins Timers
      → Ip
      → List ℕ
      → ℤ × ℤ
      → ℤ × (ℤ × ℤ)
      → Option (Master Queue Store Pins Timers)
  unfolding get_node handle_message handle_data
  handle_packet m ip bytes pins fresh = elim (get_node m.nodes ip 0) [
    | some i ↦
        if length bytes == 2
        then (get_elem? bytes 0 >>= λ message. handle_message m message i)
        else handle_data m bytes i pins
    | none ↦ get_elem? bytes 0 >>= λ message.
        let (n, out) = send_ack f (new_node f ip fresh.0 fresh.1) in
        some (
          if message == connection_msg && ltb (length m.nodes) max_nodes
          then record m { nodes = m.nodes ++ (n ∷ []); sent = m.sent ++ out }
          else m)
  ]
