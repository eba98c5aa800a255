-- ===== src/Lib.antt =====
-- A model of the core modules of EVerest (modules/), with the theorems that make them correct.
--
-- Floats.antt stands for the compiler's floating point, a parameter of every definition that uses
-- it. Common.antt passes on the names that all files share.
--
-- Charger.antt and the files below it model modules/EvseManager/Charger.hpp and Charger.cpp. Data
-- has the members, Signals the calls that set the PWM, Session the sessions, transactions and
-- authorization, Current the limits, Machine and Cycle the cases of `runStateMachine`, Events the
-- control pilot events and the other public calls, and History all calls as one step and whole
-- histories of them. `stateMutex` makes most calls atomic, so that the threads of the source are an
-- order of calls. `Authorize` and `DeAuthorize` take their locks several times: their parts are
-- steps of their own, which a history may have in any order. A round of the thread is one step, and
-- an authorization that changes during a round counts from the next one. Time is one clock in
-- milliseconds that only `wait` and the sleep before high level communication advance; a call reads
-- the same time throughout. Logging is left out. Safety, Passes and Calls prove the invariant,
-- Outputs, Speech and Guards tell when what is signalled, Progress and Limits have the rest, and
-- Scenarios runs a session.
--
-- Auth.antt and the files below it model modules/Auth/lib and modules/Auth/include.
-- ConnectorMachine is ConnectorStateMachine.cpp and Connector.cpp, with the fsm library's controller
-- as a parameter. Data has the members of the handlers, Reservations is ReservationHandler.cpp, and
-- Sessions, Selection and Tokens are AuthHandler.cpp: the session events and timers, the choice of a
-- connector, and `on_token`. The validators and the reading of dates are parameters. Session events
-- reach the handler between its calls, and while it waits for a plug-in; what arrives in a wait is
-- the list `arrivals`, which ends with the timeout. Two tokens in process at once, and events while
-- a validator answers, are not modelled. A wrong use of a mutex is an output. Booking,
-- Intersections, InProcess, Plugs, Choice, Grants and Denials have the theorems, and Scenarios a
-- station with two connectors.
--
-- Modbus.antt and the files below it model modules/SerialCommHub: Frames and Replies are the
-- requests and replies of tiny_modbus_rtu.cpp, Hub its serial port and the commands of
-- main/serial_communication_hubImpl.cpp. Buffers are lists of bytes with what uninitialised memory
-- holds as a parameter, `crc16` is a parameter, and the line is the list of what arrives after each
-- request. Buffers, Requests, Answers and Commands have the theorems, and Scenarios two devices.
--
-- Cobs.antt models the byte stuffing of modules/YetiDriver/yeti_comms/evSerial.cpp, its encoder and
-- the state of its decoder byte by byte. Blocks, Steps and RoundTrip have the theorems. The packets
-- themselves belong to a protobuf library.
--
-- Discovery.antt models the SDP server of modules/EvseV2G/sdp.cpp: the headers, the choice of a
-- response, and the answer to one datagram. Announcements has the theorems. Sockets are left out.
--
-- Slac.antt and the files below it model modules/EvseSlac. Fsm is the state machine library,
-- libfsm/fsm/fsm.hpp, with the methods of the states as a record. Context is main/context.cpp, and
-- libslac's constants a parameter. Session, Matching and Timeouts are main/states/matching.cpp and
-- matching_handle_slac.cpp, States adds others.cpp, and Controller is main/fsm_controller.cpp. The
-- loop over a session's timeouts has fuel 3, which Rounds shows to be enough. Histories has the calls
-- of the controller as steps; Transitions, Invariants and Checks prove what every history keeps from
-- what each method keeps. Keys, Places, Soundings, Orders, Confirmations, Orderly, Means, Steps and
-- Exchanges have the theorems, and Scenarios the matching of one EV.
--
-- Iso.antt and the files below it model the ISO 15118-2 server of modules/EvseV2G: the order of the
-- messages and what it lets through. Messages, AcState and DcState are v2g.hpp and the tables of
-- iso_server.hpp, Context the members of `v2g_context` that the server decides by, with
-- `iso_validate_response_code`. Setup and Charging are the handlers of iso_server.cpp, Requests is
-- `iso_handle_request`, and Connection the loop of `v2g_handle_connection` in v2g_server.cpp. Left out
-- is what only the EV reads in a response, and what is published of the EV's values. What the codec
-- leaves in fields that a handler does not set, and what lies behind a table, are parameters; what
-- mbedTLS decides of a certificate or a signature comes with the request; and what the rest of the
-- program sets meanwhile is a step of a connection, or what a wait finds at each wake-up. Tables, Owed,
-- Handlers, Accepted, Late, Earned, Earning, Authorized and Contactor have the theorems, and Scenarios
-- an AC session.
--
-- Din.antt and the files below it model the DIN 70121 server of modules/EvseV2G in the same way: Din
-- has the table of din_server.hpp, the codes and the check of a response, Handlers the handlers of
-- din_server.cpp, and Requests `din_handle_request` and the loop of `v2g_handle_connection`. The numbers
-- of OpenV2G are a parameter. Whether an isolation level is valid, or a status is EVSE_Ready, is a
-- Boolean of the model. Checks, Earned, Moves, Fine and Cleared follow what a state was earned by,
-- Points and Session a whole session, and Scenarios has a DC session.
--
-- Handshake.antt is `v2g_handle_apphandshake` of modules/EvseV2G/v2g_server.cpp, which agrees on a
-- protocol before a session: the loop over what the EV offers, and the checks after it. OpenV2G's
-- codec and `strndup` are parameters. Offers and Loop follow the loop, Negotiation has the theorems.
--
-- Energy.antt and the files below it model modules/EnergyManager: the schedules and time slots of
-- Market.cpp, its markets in Market, Offer.cpp in Offer, BrokerFastCharging.cpp in Broker, and
-- `run_optimizer` in Optimizer, with the 100 rounds of the code. The requests of EnergyNode and
-- EvseManager come in as a tree. A valid pointer to a market is the path to it from the root: where
-- an EVSE is two or more levels below the root, the source's pointers are not valid, and there is
-- no result. Doubles and floats are a parameter; Amounts says what it means that their arithmetic
-- does not round, which Whole shows for whole numbers. Slots, Schedules, Offers, Paths and Limits
-- follow a trade from one slot to all rounds, Granted and Bounds compare what is sold with the
-- request, Times, Entries and Watts have the other theorems, and Scenarios a station with a fuse.
pub mod Common
pub mod Floats
pub mod Charger
pub mod Auth
pub mod Modbus
pub mod Cobs
pub mod Discovery
pub mod Slac
pub mod Iso
pub mod Handshake
pub mod Energy
pub mod Din
