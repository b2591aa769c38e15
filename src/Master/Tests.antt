-- ===== src/Master/Tests.antt =====
-- The master on concrete values.
use spu_energy_efficient_sys.Common.{
  no_flag, All, ◌≤◌, ℕ, refl, Bool, true, false, List, [], ◌∷◌, pos, negsuc, replicate, arith, ◌<◌,
}
use spu_energy_efficient_sys.Alarms.{ListTimers}
use spu_energy_efficient_sys.Node.{Packet}
use spu_energy_efficient_sys.Master.{Master, Group, PirInfo}
use spu_energy_efficient_sys.Eeprom.{map_eeprom}
use spu_energy_efficient_sys.Master.Settings.{store_relay_group_settings, init_relay_groups}
use spu_energy_efficient_sys.Master.GroupBytes.{IsStorable}
use spu_energy_efficient_sys.Master.GroupMemory.{
  SameGroups, IsUnused, init_relay_groups-store_relay_group_settings,
}

abbrev Room : Type 0
Room = Master (List Packet × ℕ) (ℕ → ℕ) (ℕ → Bool) ListTimers

-- A group that is on, with its time.
abbrev lit_group : ℕ → Group
lit_group time = record {
  name = 97 ∷ [];
  is_on = true;
  is_connected = true;
  is_sleeping = false;
  ignore_pir = false;
  motion_detection_time = time;
}

abbrev unused_group : Group
unused_group = record {
  name = [];
  is_on = false;
  is_connected = false;
  is_sleeping = false;
  ignore_pir = false;
  motion_detection_time = 0;
}

abbrev motion_pir : PirInfo
motion_pir = record {
  is_connected = true;
  is_on = true;
  motion_detected = false;
  motion_detected_on_slave = false;
  is_sleeping = false;
  is_disabled = false;
  inactivity_time = 20;
  next_sleeping_group = pos 1;
}

-- The groups 0, 1 and 2 are on; the time of group 1 is over.
abbrev quiet_room : Room
quiet_room = record {
  nodes = [];
  base_ip = 210;
  groups = lit_group 60 ∷ lit_group 30 ∷ lit_group 30 ∷ replicate 7 unused_group;
  relays = [];
  pir = motion_pir;
  dht_connected = false;
  requested_from_panel = false;
  motion_alarm = pos 0;
  enable_pir_alarm = negsuc 0;
  current_motion_detection_time = 30;
  temperature = 0;
  humidity = 0;
  ir_code = replicate 220 0;
  ir_code_length = 0;
  ir_code_complete = false;
  memory = λ p. 0;
  pins = λ p. true;
  timers = ([], 1);
  sent = [];
  shown = [];
}

abbrev two_groups : List Group
two_groups = lit_group 700 ∷ unused_group ∷ []

lit-IsStorable : IsStorable (lit_group 700)
lit-IsStorable on = (((omega arith, omega arith), tt), omega arith, omega arith, omega arith)

unused-IsStorable : IsStorable unused_group
unused-IsStorable off = no_flag off

two-IsStorable : All IsStorable two_groups
two-IsStorable = (lit-IsStorable, (unused-IsStorable, tt))

small_zero : 0 < 65536
small_zero = omega arith

two-IsUnused : All IsUnused (unused_group ∷ unused_group ∷ [])
two-IsUnused = ((refl, refl, small_zero), ((refl, refl, small_zero), tt))

two_of_ten : 2 ≤ 10
two_of_ten = omega arith

init_relay_groups-store_relay_group_settings_example : SameGroups two_groups (
    init_relay_groups map_eeprom
      (store_relay_group_settings map_eeprom (λ p. 7) two_groups)
      0
      (unused_group ∷ unused_group ∷ []))
init_relay_groups-store_relay_group_settings_example =
    init_relay_groups-store_relay_group_settings map_eeprom (λ p. 7) two_groups
      (unused_group ∷ unused_group ∷ []) two_of_ten two-IsStorable two-IsUnused refl
