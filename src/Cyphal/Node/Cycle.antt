-- ===== src/Cyphal/Node/Cycle.antt =====
-- lib/cyphal/node.cpp: the messages that the node publishes, and Spin.
pub mod Schedule
pub mod Numbers
use unimoc.Prelude.{
  ℕ, zero, suc, ◌+◌, ◌-◌, ◌*◌, ◌/◌, ◌%◌, ◌^◌, Bool, true, false, not, ◌&&◌, ◌||◌, Option, none,
  some, List, [], ◌∷◌, leb, ◌==◌, if◌then◌else◌, take,
}
use unimoc.Cyphal.Transport.{
  Transport, Transfer, ReceiveResult, no_transfer, error, received, message, node_id_unset,
}
use unimoc.Cyphal.Node.{
  CyphalNode, Health, nominal, advisory, caution, warning, Mode, operational, initialization,
  maintenance, software_update, Publisher, Heartbeat, AllocationData, Dsdl, node_id, unique_id_hash,
  buffer_size, after_us, heartbeat_period_us, port_list_period_us, unset_port_id,
}
use unimoc.Cyphal.Node.Log.{advance, message_of}
use unimoc.Cyphal.Node.Services.{dispatch}
use unimoc.Cyphal.Node.PortList.{port_list_writer, fits}

abbrev pub max_transfers_per_spin : ℕ
max_transfers_per_spin = 32

pub health_value : Health → ℕ
health_value nominal = 0
health_value advisory = 1
health_value caution = 2
health_value warning = 3

pub mode_value : Mode → ℕ
mode_value operational = 0
mode_value initialization = 1
mode_value maintenance = 2
mode_value software_update = 3

pub next_seed : ℕ → ℕ
next_seed seed = (seed * 1664525 + 1013904223) % 2 ^ 32

module _ {T S V : Type 0} ⦃bus : Transport T⦄ where
  -- `Publish`, with the publisher that the caller owns before and after it.
  pub publish : Publisher → List ℕ → CyphalNode T S V → Bool × Publisher × CyphalNode T S V
  publish publisher payload n =
      let sent = bus.send (message_of publisher payload n) n.transport in
      if (publisher.port_id == unset_port_id) || (node_id n == node_id_unset)
      then (false, publisher, n)
      else (sent.0, advance publisher, record n { transport = sent.1 })

  pub uptime_seconds : ℕ → CyphalNode T S V → ℕ
  uptime_seconds now_us n = (now_us + 2 ^ 64 - n.start_us) % 2 ^ 64 / 1000000 % 2 ^ 32

  -- `PublishInternal` for each of the node's own publishers, when the message was serialized.
  pub send_heartbeat : Option (List ℕ) → CyphalNode T S V → CyphalNode T S V
  send_heartbeat none n = n
  send_heartbeat (some payload) n = record n {
    transport = (bus.send (message_of n.heartbeat payload n) n.transport).1;
    heartbeat = advance n.heartbeat;
  }

  pub send_port_list : List ℕ → CyphalNode T S V → CyphalNode T S V
  send_port_list payload n = record n {
    transport = (bus.send (message_of n.port_list payload n) n.transport).1;
    port_list = advance n.port_list;
  }

  pub send_allocation : Option (List ℕ) → CyphalNode T S V → CyphalNode T S V
  send_allocation none n = n
  send_allocation (some payload) n = record n {
    transport = (bus.send (message_of n.allocation payload n) n.transport).1;
    allocation = advance n.allocation;
  }

  pub publish_port_list : CyphalNode T S V → CyphalNode T S V
  publish_port_list n =
      let writer = port_list_writer n in
      if fits writer then send_port_list (take writer.size writer.written) n else n

module _ {T S V : Type 0} ⦃bus : Transport T⦄ ⦃dsdl : Dsdl V⦄ where
  pub publish_heartbeat : ℕ → CyphalNode T S V → CyphalNode T S V
  publish_heartbeat now_us n =
      let status : Heartbeat = record {
        uptime = uptime_seconds now_us n;
        health = health_value n.health;
        mode = mode_value n.mode;
        vendor_specific_status_code = n.vendor_status;
      } in
      send_heartbeat (dsdl.heartbeat_message status) n

  -- The request of `RequestNodeId`, before the next one is scheduled.
  pub send_request : CyphalNode T S V → CyphalNode T S V
  send_request n =
      let request : AllocationData = record {
        unique_id_hash = unique_id_hash n.info;
        allocated_node_id = [];
      } in
      send_allocation (dsdl.allocation_data request) n

  pub request_node_id : ℕ → CyphalNode T S V → CyphalNode T S V
  request_node_id now_us n =
      let seed = next_seed n.allocation_seed in
      record (send_request n) {
        allocation_seed = seed;
        next_allocation_us = after_us (after_us now_us 500000) (seed % 1000000);
      }

  -- The loop of `Spin`, with `count` transfers left.
  pub receive_loop : (count now_us : ℕ) → CyphalNode T S V → CyphalNode T S V
  receive_loop zero now_us n = n
  receive_loop (suc count) now_us n =
      let polled = bus.receive buffer_size n.transport in
      let n' = record n { transport = polled.1 } in
      elim polled.0 [
        | no_transfer ↦ n'
        | error ↦ n'
        | received t ↦ receive_loop count now_us (dispatch t now_us n')
      ]

  pub spin_heartbeat : ℕ → CyphalNode T S V → CyphalNode T S V
  spin_heartbeat now_us n =
      let next = after_us n.next_heartbeat_us heartbeat_period_us in
      if leb n.next_heartbeat_us now_us
      then record (publish_heartbeat now_us n) {
        next_heartbeat_us = if leb next now_us then after_us now_us heartbeat_period_us else next;
      }
      else n

  pub spin_port_list : ℕ → CyphalNode T S V → CyphalNode T S V
  spin_port_list now_us n =
      if leb n.next_port_list_us now_us
      then record (publish_port_list n) { next_port_list_us = after_us now_us port_list_period_us }
      else n

  -- The periodic messages of `Spin`.
  pub spin_messages : ℕ → CyphalNode T S V → CyphalNode T S V
  spin_messages now_us n =
      if node_id n == node_id_unset
      then (if leb n.next_allocation_us now_us then request_node_id now_us n else n)
      else spin_port_list now_us (spin_heartbeat now_us n)

  pub process_bus : ℕ → CyphalNode T S V → CyphalNode T S V
  process_bus now_us n = record n { transport = bus.process now_us n.transport }

  pub spin : ℕ → CyphalNode T S V → CyphalNode T S V
  spin now_us n =
      let n' = process_bus now_us n in
      if not n.started
      then n'
      else process_bus now_us (spin_messages now_us (receive_loop max_transfers_per_spin now_us n'))
