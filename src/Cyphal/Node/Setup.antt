-- ===== src/Cyphal/Node/Setup.antt =====
-- lib/cyphal/node.cpp: AddRegisterProvider, Subscribe, AddServer, AddPublisher and Start. The Boolean is the
-- result; a slot is taken at the end of a list.
pub mod Capacity
use unimoc.Prelude.{
  ℕ, ◌%◌, ◌^◌, ◌/◌, bit_xor, Bool, true, false, not, ◌&&◌, ◌||◌, List, [], ◌∷◌, ◌++◌, leb, ltb,
  ◌==◌, if◌then◌else◌, length, some,
}
use unimoc.Cyphal.Transport.{Transport, message, service_request, node_id_unset, node_id_max}
use unimoc.Cyphal.Node.{
  CyphalNode, NodeInfo, CommandResult, DiagnosticRecord, NodeIdListener, Health, Mode,
  RegisterProvider, Listener, Server, Publisher, Dsdl, node_id, unset_port_id, served_services,
  port_get_info, port_register_list, port_register_access, port_execute_command,
  port_node_id_allocation, port_list_period_us, after_us, unique_id_hash,
}

abbrev pub max_register_providers : ℕ
max_register_providers = 6

abbrev pub max_listeners : ℕ
max_listeners = 12

abbrev pub max_publishers : ℕ
max_publishers = 8

abbrev pub max_servers : ℕ
max_servers = 8

abbrev pub max_service_id : ℕ
max_service_id = 511

-- `std::find` on a list of port-IDs
unfoldable pub contains : ℕ → List ℕ → Bool
contains port [] = false
contains port (p ∷ ports) = (p == port) || contains port ports

abbrev pub services_of : {S : Type 0} → List (Server S) → List ℕ
services_of [] = []
services_of (server ∷ servers) = server.service_id ∷ services_of servers

module _ {T S V : Type 0} ⦃bus : Transport T⦄ where
  pub add_register_provider : RegisterProvider S V → CyphalNode T S V → Bool × CyphalNode T S V
  add_register_provider provider n =
      if leb max_register_providers (length n.providers)
      then (false, n)
      else (true, record n { providers = n.providers ++ (provider ∷ []) })

  unfoldable pub subscribe : Listener S → ℕ → CyphalNode T S V → Bool × CyphalNode T S V
  subscribe listener extent n =
      let asked = bus.subscribe message listener.subject_id extent n.transport in
      if listener.subject_id == unset_port_id
      then (true, n)
      else if leb max_listeners (length n.listeners)
      then (false, n)
      else if not (asked.0)
      then (false, record n { transport = asked.1 })
      else (true, record n { transport = asked.1; listeners = n.listeners ++ (listener ∷ []) })

  pub add_server : Server S → ℕ → CyphalNode T S V → Bool × CyphalNode T S V
  add_server server request_extent n =
      let service_id = server.service_id in
      let taken =
        contains service_id served_services || contains service_id (services_of n.servers) in
      let asked = bus.subscribe service_request service_id request_extent n.transport in
      if service_id == unset_port_id
      then (true, n)
      else if ltb max_service_id service_id || taken || leb max_servers (length n.servers)
      then (false, n)
      else if not (asked.0)
      then (false, record n { transport = asked.1 })
      else (true, record n { transport = asked.1; servers = n.servers ++ (server ∷ []) })

  pub add_publisher : Publisher → CyphalNode T S V → Bool × CyphalNode T S V
  add_publisher publisher n =
      if publisher.port_id == unset_port_id
      then (true, n)
      else if leb max_publishers (length n.published_subjects)
      then (false, n)
      else (
        true,
        record n { published_subjects = n.published_subjects ++ (publisher.port_id ∷ []) },
      )

module _ {T S V : Type 0} where
  pub set_info : NodeInfo → CyphalNode T S V → CyphalNode T S V
  set_info info n = record n { info = info }

  pub set_command_handler :
      (ℕ → List ℕ → S → CommandResult × List DiagnosticRecord × S)
      → CyphalNode T S V
      → CyphalNode T S V
  set_command_handler handler n = record n { command_handler = some handler }

  pub set_node_id_listener : NodeIdListener S → CyphalNode T S V → CyphalNode T S V
  set_node_id_listener listener n = record n { node_id_listener = some listener }

  pub set_health : Health → CyphalNode T S V → CyphalNode T S V
  set_health health n = record n { health = health }

  pub set_mode : Mode → CyphalNode T S V → CyphalNode T S V
  set_mode mode n = record n { mode = mode }

  pub set_vendor_status : ℕ → CyphalNode T S V → CyphalNode T S V
  set_vendor_status status n = record n { vendor_status = status }

module _ {T V : Type 0} ⦃bus : Transport T⦄ (dsdl : Dsdl V) where
  -- The subscriptions of `Start`: all are asked for, and the result says that none was refused.
  pub subscribe_services : T → Bool × T
  subscribe_services t =
      let info = bus.subscribe service_request port_get_info dsdl.get_info_extent t in
      let list = bus.subscribe service_request port_register_list dsdl.list_extent (info.1) in
      let access = bus.subscribe service_request port_register_access dsdl.access_extent (list.1) in
      let command =
        bus.subscribe service_request port_execute_command dsdl.command_extent (access.1) in
      let allocation =
        bus.subscribe message port_node_id_allocation dsdl.allocation_extent (command.1) in
      let subscribed = command.0 && access.0 && list.0 && info.0 in
      if bus.local_node_id (command.1) == node_id_unset
      then (allocation.0 && subscribed, allocation.1)
      else (subscribed, command.1)

module _ {T S V : Type 0} ⦃bus : Transport T⦄ ⦃dsdl : Dsdl V⦄ where
  pub start : ℕ → ℕ → CyphalNode T S V → Bool × CyphalNode T S V
  start id now_us n =
      let hash = unique_id_hash n.info in
      let seed = bit_xor hash (hash / 2 ^ 32) % 2 ^ 32 in
      let local = bus.set_local_node_id (if leb id node_id_max then id else node_id_unset) in
      let subscribed = subscribe_services dsdl (local n.transport) in
      (
        subscribed.0,
        record n {
          transport = subscribed.1;
          start_us = now_us;
          next_heartbeat_us = now_us;
          next_port_list_us = after_us now_us port_list_period_us;
          allocation_seed = seed;
          next_allocation_us = after_us now_us (seed % 1000000);
          started = true;
        },
      )
