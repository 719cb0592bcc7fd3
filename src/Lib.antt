-- ===== src/Lib.antt =====
-- Verification of UNIMOC (Universal Motor Control), a C++ library and firmware for motor drives.
--
-- The program. The libraries under lib/ hold the logic: lib/cyphal is the Cyphal node on an injected transport,
-- lib/settings the settings with their storage, lib/ebike the display protocol and the sensors of an e-bike,
-- lib/motor_control the controllers and observers, lib/units floats with dimensions. The application under src/
-- builds a drive of them: src/drive the drive node and the drive of a cart, src/ebike the e-bike, src/startup the
-- start-up, src/current_control the interrupt that controls the current. A bus message reaches CyphalNode, which
-- calls the listeners and handlers of the application; a register access reaches the settings store through a
-- register provider; CartControl turns the cart's messages into a torque that the outer loop applies.
--
-- The files. Each models the code that it names, with one function per method, in the words of the source in
-- antt's spelling; the modules below it hold the proofs, and its Tests runs on concrete data.
--   Prelude: the names of the libraries, Boolean tests, lists, bit operations and integers for all modules.
--   Units: lib/units/units.hpp. `Float F` is a type of floats with the operations that the code uses, and
--     Units/Laws what IEEE floats promise of comparison and rounding; Units/Integers is an instance that runs.
--     Units/Dimension has the dimensions, which the compiler computes.
--   Cyphal/Transport: lib/cyphal/transport.hpp, the interface Transport and its data.
--   Cyphal/Node: lib/cyphal/node.hpp and node.cpp, class CyphalNode. Node has the state, Node/Setup the calls
--     before and including Start, Node/Services Dispatch and every handler it calls, Node/Log Log, Node/PortList the port
--     list that is serialized by hand, Node/Cycle the messages of the node and Spin.
--   Settings/Store: lib/settings/settings_store.hpp, classes SettingsStore, SettingsOperations and
--     SettingsSaveGate. Settings/Ports: the port-ID checks of the same file.
--   Ebike/Assist: lib/ebike/src/assist_controller.hpp, class AssistController.
--   Ebike/Pedal: lib/ebike/src/pedal_observer.hpp, class PedalObserver.
--   Ebike/Control: src/ebike/ebike_control.hpp and ebike_control.cpp, class EbikeControl over the hardware access
--     EbikeIo; Control/Display has ServiceDisplay and what it calls, Control/Cycle has Update.
--   Ebike/EdgeUart: lib/ebike/src/edge_uart_decoder.hpp, class EdgeUartDecoder.
--   Ebike/Kunteng: lib/ebike/src/kunteng_protocol.hpp, EncodeDisplayRequest, class DisplayDecoder,
--     and in Kunteng/Status EncodeControllerFrame.
--   CurrentControl/Mailbox and CurrentControl/SeqLock: src/current_control/mailbox.hpp, classes Mailbox and SeqLock.
--   Hardware/Slcan: hardware/zephyr_sim/slcan_media.hpp and slcan_media.cpp, class SlcanMedia; Slcan/Ports has the ports
--     over the UART driver.
--   Motor/Hall: lib/motor_control/src/hall_decoder.hpp, class HallDecoder.
--   Motor/HallQueue: lib/motor_control/src/hall_capture.hpp, class HallEventQueue.
--   Motor/HallFusion: lib/motor_control/src/hall_fusion.hpp, class HallFusion over the observer as an interface.
--   Drive/Cart: src/drive/cart_control.hpp and cart_control.cpp, class CartControl.
--
-- The models. A method takes the state of its object and returns the new one, with its result; what a method
-- changes through a reference is returned too. uint32_t and uint64_t arithmetic is written with `% 2 ^ w`, and
-- uint8_t the same where a value may pass it. An array with a counter of used entries is the list of those
-- entries. A buffer is a list of bytes. Virtual interfaces (Transport, RegisterProvider, the listeners and
-- handlers, SettingsStorage) and callbacks are records of functions on the state that they act on; the node and
-- the store take them as parameters, with the promises of their comments as hypotheses where a proof needs
-- them. The serializers that the build generates from the DSDL definitions are the record Dsdl. A mutex that
-- makes each operation of the settings store exclusive makes it one step.
--
-- Loops. A loop over an array recurs on the list; the transfers of one Spin are counted down from 32 as in the
-- source. The sampling loop of EdgeUartDecoder has ten rounds of fuel: each round but the last moves on one bit
-- of a frame of ten bits.
--
-- Limits. The node's periodic messages are judged for times well below 2 ^ 64 us. What a listener or the command
-- handler logs through the node, and the subscription that the listener of the node-ID asks for, are results of
-- theirs that the node carries out; a service handler or a register provider makes no call of the node. The encoding
-- of a register value and the range checks of Validate are parameters of the settings store, WrapAngle is one of
-- HallDecoder and of PedalObserver, the mechanical observer one of HallFusion, and `Float F` has no further structure
-- than the laws named. The capacity of HallEventQueue is the 16 of its two instances.
-- Not modelled: the rest of lib/motor_control, src/current_control and src/startup, the drive node, and the
-- transport over libcanard; and, as they hold no logic of the program or only glue, the drivers under hardware/
-- other than the slcan interface, the plant simulation under lib/sim, and the calls of the third-party libraries
-- libcanard and cymon.
pub mod Prelude
pub mod Units
pub mod Cyphal
pub mod Settings
pub mod Ebike
pub mod Hardware
pub mod Motor
pub mod CurrentControl
pub mod Drive
