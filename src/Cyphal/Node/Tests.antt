-- ===== src/Cyphal/Node/Tests.antt =====
-- CyphalNode on a transport that holds what it received and sent, with a drive's registers as the application.
use unimoc.Prelude.{
  ℕ, ◌+◌, ◌-◌, ◌/◌, ◌%◌, ◌≡◌, refl, true, false, Option, none, some, List, [], ◌∷◌, ◌++◌, ◌⊎◌, ◌==◌,
  if◌then◌else◌, get_or, arith,
}
use unimoc.Cyphal.Transport.{
  Transport, IsTransport, Transfer, ReceiveResult, no_transfer, received, message, service_request,
  nominal,
}
use unimoc.Cyphal.Node.{
  CyphalNode, NodeInfo, Publisher, RegisterProvider, Server, Dsdl, AllocationData, node_id,
  initialization, served_services,
}
use unimoc.Cyphal.Node.Setup.{add_server, contains}
use unimoc.Cyphal.Node.Setup.Capacity.{IsWithin, is_unique, setup-IsWithin, adds_server}
use unimoc.Cyphal.Node.Services.{find_register, access_register, handle_allocation}
use unimoc.Cyphal.Node.Services.Access.{IsAccess, access_register_lem}
use unimoc.Cyphal.Node.Services.Allocation.{IsGrant, handle_allocation_lem}
use unimoc.Cyphal.Node.PortList.{Writer, port_list_writer, fits}
use unimoc.Cyphal.Node.PortList.MaskBits.{bit_of}
use unimoc.Cyphal.Node.PortList.Served.{port_list_services}
use unimoc.Cyphal.Node.Cycle.{spin_messages}
use unimoc.Cyphal.Node.Cycle.Schedule.{IsScheduled, spin_messages-IsScheduled, spin_messages_once}
use unimoc.Cyphal.Node.Cycle.Numbers.{publish_all, numbered, send_all, publish_all_lem}

-- The local node-ID, what waits to be received, and what was sent.
abbrev TestBus : Type 0
TestBus = ℕ × List Transfer × List Transfer

abbrev receive_next : ℕ → TestBus → ReceiveResult × TestBus
receive_next size (id, [], sent) = (no_transfer, (id, [], sent))
receive_next size (id, m ∷ waiting, sent) = (received m, (id, waiting, sent))

instance abbrev bus : Transport TestBus
bus = record {
  send = λ m t. (true, (t.0, t.1, m ∷ t.2));
  receive = receive_next;
  subscribe = λ kind port extent t. (true, t);
  set_local_node_id = λ id t. (id, t.1, t.2);
  local_node_id = λ t. t.0;
  process = λ now_us t. t;
}

receive_next-local : (size : ℕ) (t : TestBus) → (receive_next size t).1.0 ≡ t.0
receive_next-local size (id, [], sent) = refl
receive_next-local size (id, m ∷ waiting, sent) = refl

bus-IsTransport : IsTransport bus
bus-IsTransport = record {
  local_set = λ id t. refl;
  local_send = λ m t. refl;
  local_receive = receive_next-local;
  local_subscribe = λ kind port extent t. refl;
  local_process = λ now_us t. refl;
}

-- Every message is its fields, one after the other.
abbrev one_number : List ℕ → Option ℕ
one_number [] = none
one_number (x ∷ xs) = some x

abbrev name_and_value : List ℕ → Option (List ℕ × ℕ)
name_and_value [] = none
name_and_value (value ∷ name) = some (name, value)

abbrev number_and_list : List ℕ → Option (ℕ × List ℕ)
number_and_list [] = none
number_and_list (x ∷ xs) = some (x, xs)

abbrev hash_and_id : List ℕ → Option AllocationData
hash_and_id [] = none
hash_and_id (hash ∷ ids) = some (record { unique_id_hash = hash; allocated_node_id = ids })

instance abbrev fields : Dsdl ℕ
fields = record {
  get_info_extent = 0;
  list_extent = 2;
  access_extent = 515;
  command_extent = 300;
  allocation_extent = 9;
  get_info_response = λ info. some (info.unique_id ++ info.name);
  list_request = one_number;
  list_response = λ name. some name;
  access_request = name_and_value;
  access_response = λ r. some (r.value ∷ []);
  command_request = number_and_list;
  command_response = λ r. some (r.status ∷ r.output);
  allocation_data = λ a. some (a.unique_id_hash ∷ a.allocated_node_id);
  allocation_data_of = hash_and_id;
  heartbeat_message = λ h. some (h.uptime ∷ h.health ∷ h.mode ∷ []);
  record_message = λ r. some (r.severity ∷ r.text);
  empty_value = 0;
  is_empty = λ v. v == 0;
}

-- Two registers, the first mutable, over their values.
abbrev registers : RegisterProvider (ℕ × ℕ) ℕ
registers = record {
  count = λ s. 2;
  name = λ i s. if i == 0 then 97 ∷ [] else (98 ∷ []);
  read = λ i s.
      if i == 0
      then (record { is_mutable = true; is_persistent = true }, s.0)
      else (record { is_mutable = false; is_persistent = false }, s.1);
  write = λ i v s. (v, s.1);
}

abbrev publisher : ℕ → Publisher
publisher port = record { port_id = port; priority = nominal; next_transfer_id = 30 }

abbrev node : CyphalNode TestBus (ℕ × ℕ) ℕ
node = record {
  transport = (42, [], []);
  application = (7, 8);
  info = record {
    name = 117 ∷ [];
    hardware_major = 1;
    hardware_minor = 0;
    software_major = 1;
    software_minor = 2;
    vcs_revision_id = 0;
    unique_id = 1 ∷ [];
  };
  command_handler = none;
  node_id_listener = none;
  providers = registers ∷ [];
  listeners = [];
  servers = [];
  published_subjects = 100 ∷ [];
  health = unimoc.Cyphal.Node.Health.nominal;
  mode = initialization;
  vendor_status = 0;
  started = true;
  start_us = 0;
  next_heartbeat_us = 1000;
  next_port_list_us = 5000;
  next_allocation_us = 0;
  allocation_seed = 1;
  heartbeat = publisher 7509;
  port_list = publisher 7510;
  allocation = publisher 8166;
  diagnostic = publisher 8184;
}

abbrev anonymous : CyphalNode TestBus (ℕ × ℕ) ℕ
anonymous = record node { transport = (255, [], []) }

abbrev ask : ℕ → List ℕ → Transfer
ask port payload = record {
  port_id = port;
  source_node_id = 5;
  destination_node_id = 42;
  transfer_id = 3;
  kind = service_request;
  priority = nominal;
  payload = payload;
}

abbrev grant : Transfer
grant = record (ask 8166 (1 ∷ 9 ∷ [])) { kind = message; destination_node_id = 255 }

abbrev server : Server (ℕ × ℕ)
server = record { service_id = 17; on_request = λ request s. (some (1, 5 ∷ []), s) }

-- A command handler that logs and answers.
abbrev commanded : CyphalNode TestBus (ℕ × ℕ) ℕ
commanded = record node {
  command_handler = some (λ command parameter s. (
    record { status = 0; output = [] },
    record { severity = 3; text = 111 ∷ [] } ∷ [],
    (command, s.1),
  ));
}

handle_allocation_lem_example :
    ((response : AllocationData) × IsGrant grant anonymous response
      × (node_id (handle_allocation grant anonymous) ≡ get_or response.allocated_node_id 0 0)
      × ((handle_allocation grant anonymous).next_heartbeat_us ≡ 0))
    ⊎ (((response : AllocationData) → ¬ IsGrant grant anonymous response)
        × (handle_allocation grant anonymous ≡ anonymous))
handle_allocation_lem_example = handle_allocation_lem bus-IsTransport grant anonymous

node-IsWithin : IsWithin node
unfolding is_unique contains
node-IsWithin = record {
  providers_fit = omega arith;
  listeners_fit = omega arith;
  servers_fit = omega arith;
  publishers_fit = omega arith;
  services_valid = tt;
  services_unique = refl;
}

setup-IsWithin_example : IsWithin ((add_server server 8 node).1)
setup-IsWithin_example = setup-IsWithin (adds_server server 8) node-IsWithin

port_list_services_example :
    let w : Writer = port_list_writer node in
    (fits w ≡ true)
    × (bit_of (get_or w.written (w.size - 64 + 430 / 8) 0) (430 % 8)
        ≡ (if contains 430 (served_services ++ []) then 1 else 0))
port_list_services_example = port_list_services node 430 node-IsWithin (omega arith)

spin_messages-IsScheduled_example : IsScheduled 4000 (spin_messages 4000 node)
spin_messages-IsScheduled_example =
    spin_messages-IsScheduled bus-IsTransport 4000 node (omega arith) (omega arith) (omega arith)
      (omega arith)

spin_messages_once_example : spin_messages 4000 (spin_messages 4000 node) ≡ spin_messages 4000 node
spin_messages_once_example =
    spin_messages_once bus-IsTransport 4000 node (omega arith) (omega arith) (omega arith)
      (omega arith)

abbrev payloads : List (List ℕ)
payloads = (1 ∷ []) ∷ (2 ∷ []) ∷ (3 ∷ []) ∷ []

publish_all_lem_example :
    ((publish_all (publisher 100) payloads node).1.transport
      ≡ send_all (numbered (publisher 100) 42 30 payloads) (42, [], []))
    × ((publish_all (publisher 100) payloads node).0.next_transfer_id ≡ 33 % 32)
publish_all_lem_example =
    publish_all_lem bus-IsTransport payloads (publisher 100) node (omega arith) (omega arith)
      (omega arith)

access_register_lem_example :
    IsAccess
      (find_register (registers ∷ []) (97 ∷ []) (7, 8))
      5
      (7, 8)
      (access_register (registers ∷ []) (97 ∷ []) 5 (7, 8))
access_register_lem_example = access_register_lem (registers ∷ []) (97 ∷ []) 5 (7, 8)
