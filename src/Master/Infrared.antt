-- ===== src/Master/Infrared.antt =====
-- Master/Master.ino: the transfer of an infrared code from the control panel to the slaves
-- (panelTransmitIrCode). The answer to the panel is left out.
use spu_energy_efficient_sys.Common.{
  ℕ, zero, suc, ◌+◌, ◌-◌, ◌/◌, ◌%◌, true, false, Option, none, some, List, [], ◌∷◌, ◌++◌, ℤ, pos,
  negsuc, ◌==ℤ◌, take, set, length, ltb, ◌>>=◌, if◌then◌else◌,
}
use spu_energy_efficient_sys.Fifo.{Fifo}
use spu_energy_efficient_sys.Spu.{max_packet_size, ir_length_msg, ir_code_msg}
use spu_energy_efficient_sys.Node.{Packet}
use spu_energy_efficient_sys.Master.{Master, send_global_packet}

-- The two bytes of a value, the low one first.
abbrev pub low_high : ℕ → List ℤ
low_high v = pos (v % 256) ∷ pos (v / 256 % 256) ∷ []

-- `irCode[irCodeLength] = code`, which keeps 16 bits.
abbrev pub short_of : ℤ → ℕ
short_of (pos n) = n % 65536
short_of (negsuc n) = 65535 - n % 65536

-- The inner loop: the words of one packet, for at most `k` values, and the values left.
unfoldable pub fill_packet : ℕ → List ℕ → List ℤ × List ℕ
fill_packet zero values = ([], values)
fill_packet (suc k) [] = ([], [])
fill_packet (suc k) (v ∷ vs) = let (words, left) = fill_packet k vs in (low_high v ++ words, left)

-- The packets of the outer loop, at most `k`; `none` is a transfer that is not done by then.
unfoldable pub code_packets : ℕ → List ℕ → Option (List (List ℤ))
unfolding fill_packet
code_packets k [] = some []
code_packets zero (v ∷ vs) = none
code_packets (suc k) (v ∷ vs) =
    let (words, left) = fill_packet ((max_packet_size - 2) / 2) (v ∷ vs) in
    code_packets k left >>= λ packets. some (words ∷ packets)

module _ (f : Fifo Packet) {Store Pins Timers : Type 0} where
  open f use {Queue}

  -- The loop over the arguments: the values that the panel sends, `-1` after the last.
  unfoldable pub take_values :
      Master Queue Store Pins Timers → List ℤ → Option (Master Queue Store Pins Timers)
  take_values m [] = some m
  take_values m (c ∷ cs) =
      let n = m.ir_code_length in
      let more =
        take_values (record m { ir_code = set m.ir_code n (short_of c); ir_code_length = n + 1 })
          cs in
      if c ==ℤ negsuc 0
      then some (record m { ir_code_complete = true })
      else if ltb n (length m.ir_code)
      then more
      else none

  unfoldable pub send_packets :
      Master Queue Store Pins Timers → ℕ → List (List ℤ) → Option (Master Queue Store Pins Timers)
  send_packets m code [] = some m
  send_packets m code (p ∷ ps) = send_global_packet f m code p >>= λ m'. send_packets m' code ps

  unfoldable pub panel_transmit_ir_code :
      Master Queue Store Pins Timers → List ℤ → Option (Master Queue Store Pins Timers)
  unfolding take_values send_packets code_packets
  panel_transmit_ir_code m args =
      let m0 =
        if m.ir_code_complete
        then record m { ir_code_length = 0; ir_code_complete = false }
        else m in
      take_values m0 args >>= λ m1.
      let n = m1.ir_code_length in
      if m1.ir_code_complete
      then (code_packets n (take n m1.ir_code) >>= λ packets.
          send_global_packet f m1 ir_length_msg (low_high n) >>= λ m2.
          send_packets m2 ir_code_msg packets)
      else some m1
