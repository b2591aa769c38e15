-- ===== src/Lib.antt =====
-- Verification library of the SPU energy efficiency system: the firmware of a room controller (the
-- master) and of the nodes that it commands over UDP (the slaves).
--
-- Parts and files.
-- - Spu: the message codes, node states, sizes and EEPROM addresses of libraries/SPU/SPU.h, under
--   their names in lower case.
-- - Node (libraries/Node): what the master keeps of one slave. The record `Node` has the fields of
--   the class; a method is the function of its name in snake case, and returns the new node beside
--   the datagrams that it sends. Node/Sensors has the methods on sensors and relays; Node/Sending,
--   Retries, Delivery and Relays prove what they do.
-- - Calendar (libraries/Calendar): the alarms that switch groups. Calendar.antt has the data and the
--   EEPROM format (storeAlarms, readAlarms), Calendar/Edit the operations on slots and events,
--   Calendar/Check the periodic check; the other children prove what they do.
-- - LedIndicator (libraries/LEDIndicator): the status light. LedIndicator/Modes has the machine of
--   modes that the methods implement (LedIndicator/Refinement).
-- - Encoder (libraries/Encoder): the dial with its switch, reading by reading; Encoder/Presses and
--   Encoder/Turns prove which handlers it calls.
-- - SerialMenu (libraries/SerialMenu): the table of commands and the lines of the serial port;
--   SerialMenu/Parsing proves what a line does, SerialMenu/Editing what the table is.
-- - ControlPanel (libraries/ControlPanel): the packets of the control panel and their responses;
--   ControlPanel/Encoding has the packets as they are sent, ControlPanel/Packets proves which calls a
--   packet makes, ControlPanel/Safety what holds for any bytes, ControlPanel/Loops that its two loops
--   are one over the bytes, ControlPanel/Framing the format of a response.
-- - IrControl (libraries/IRControl): the infrared code in the EEPROM; IrControl/Restoring proves that
--   it survives a restart.
-- - Slave (Slave/Slave.ino): the firmware of a slave. The record `Slave` has the variables of the
--   sketch, and a function of the sketch is the function of its name in snake case, on that record.
--   Slave.antt sends and sends again; Slave/Sensors has the sensors, relays and groups, Slave/Connection
--   the network, with what the sketch polls as an argument, and Slave/Handling the messages and packets
--   of the master. Slave/Written, Memory, Answers, Waiting, Resending, Stopping and
--   Groups prove what they do.
-- - WifiSettings: the network name and the password in the EEPROM, the same code in both sketches;
--   SensorByte: the byte that says which sensors are connected.
-- - Master (Master/Master.ino): the controller. Master.antt has its variables, broadcasts and the
--   switching of groups; Master/Motion the motion detection, Master/Network the table of slaves and
--   their messages, Master/Reports what they tell of their sensors, Master/Settings the EEPROM,
--   Master/Devices the sensors of the master itself, and Master/Infrared the transfer of infrared
--   codes. Master/Dozing, SleepLoop and Sleeping prove how groups are put to sleep, Master/GroupBytes
--   and GroupMemory that they survive a restart.
-- - Protocol: master and slave together; each child proves that what one sends is what the other
--   takes (Report with SensorInfo, NetworkSettings, InfraredCode with IrValues).
-- - Fifo and Eeprom: what the code relies on of the queue library (libraries/Queue-master) and of the
--   EEPROM library, as records of operations and laws that the models take as a parameter, each with
--   an instance that meets the laws. Calendar/Check takes the time library (libraries/Time) so too,
--   LedIndicator and both sketches the pins of the board (Gpio), and the sketches the timers of
--   libraries/TimeAlarms (Alarms).
--
-- Conventions. A method of an object returns the new object. `none` is an access outside an array
-- (undefined behaviour in the source). `int` is an unbounded integer, `(byte)` takes the low eight
-- bits; the code's counters stay far below 2^31. Loops over arrays recur on the rounds left; the loop
-- of readAlarms, which the source does not bound, recurs on the free slots, and one alarm more is a
-- fault. Printing to the serial port is left out. In two places the source reads past a local array
-- (sendPacket of the slave behind the array of sendSensorInfo, sendPacket of Node behind that of
-- disconnectRelay): what of the memory behind it can be read is an argument there, and it is a fault
-- where that is too little. `char` is signed in ControlPanel.receive; ControlPanel.packets takes it
-- either way.
--
-- Bounds and fuel. The loops of the sketches that the source bounds recur on the rounds left (30, 20
-- or 10 polls of a wait, after which the processor restarts). The loop of sleepGroups, which the source
-- does not bound, has eleven rounds, one more than there are groups, which Master/Sleeping proves to be
-- enough; the loop that cuts an infrared code into packets has as many as the code has values, which
-- Protocol/InfraredCode proves to be enough.
--
-- Not modelled: of Slave/Slave.ino the reading of the sensors, the commands of the serial port, the
-- start-up and the status light; of Master/Master.ino the pairing, the display and its menus, the
-- handlers of the control panel but one, the commands of the serial port and the start-up; the library
-- LCDMenu, the recording of infrared codes (IRRecord), the copies of other projects under libraries/,
-- and the web application.
pub mod Alarms
pub mod Calendar
pub mod Common
pub mod ControlPanel
pub mod Eeprom
pub mod Encoder
pub mod Fifo
pub mod Gpio
pub mod IrControl
pub mod LedIndicator
pub mod Master
pub mod Node
pub mod Protocol
pub mod SensorByte
pub mod SerialMenu
pub mod Slave
pub mod Spu
pub mod WifiSettings
