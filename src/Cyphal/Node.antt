-- ===== src/Cyphal/Node.antt =====
-- lib/cyphal/node.hpp: the state of CyphalNode and the interfaces it calls. `T` is the state of the transport
-- and `S` the state of the application, on which register providers, listeners and handlers act; `V` is the
-- generated type of a register value. An array with a counter is the list of its used entries. Buffers are
-- lists of bytes. What listeners and the command handler call of the node, Log and Subscribe, is a part of their
-- results, which the node carries out.
mod Log
mod Setup
mod Services
mod PortList
mod Cycle
mod Tests
use unimoc.Prelude.{ℕ, ◌+◌, ◌-◌, ◌*◌, ◌/◌, ◌%◌, ◌^◌, bit_xor, Bool, Option, List, [], ◌∷◌}
use unimoc.Cyphal.Transport.{Transfer, Priority, Transport}

pub data Health : Type 0 where
  nominal advisory caution warning : Health

pub data Mode : Type 0 where
  operational initialization maintenance software_update : Mode

pub record NodeInfo : Type 0 where
  pub name : List ℕ
  pub hardware_major : ℕ
  pub hardware_minor : ℕ
  pub software_major : ℕ
  pub software_minor : ℕ
  pub vcs_revision_id : ℕ
  pub unique_id : List ℕ

pub record CommandResult : Type 0 where
  pub status : ℕ
  pub output : List ℕ

pub record RegisterFlags : Type 0 where
  pub is_mutable : Bool
  pub is_persistent : Bool

-- `Write` reports a result that the node ignores; it is left out.
pub record RegisterProvider (S V : Type 0) : Type 0 where
  pub count : S → ℕ
  pub name : ℕ → S → List ℕ
  pub read : ℕ → S → RegisterFlags × V
  pub write : ℕ → V → S → S

pub record DiagnosticRecord : Type 0 where
  pub severity : ℕ
  pub text : List ℕ

-- A message listener, with what it logs through the node.
pub record Listener (S : Type 0) : Type 0 where
  pub subject_id : ℕ
  pub on_message : Transfer → ℕ → S → List DiagnosticRecord × S

-- The listener of the allocated node-ID: the subscription that it asks the node for, with its extent, and then,
-- knowing whether the node took it, what it does and logs.
pub record NodeIdListener (S : Type 0) : Type 0 where
  pub subscription : ℕ → S → Option (Listener S × ℕ)
  pub on_allocated : ℕ → Bool → S → List DiagnosticRecord × S

-- The handler returns a size, or nothing, and the response buffer it wrote.
pub record Server (S : Type 0) : Type 0 where
  pub service_id : ℕ
  pub on_request : Transfer → S → Option (ℕ × List ℕ) × S

pub record Publisher : Type 0 where
  pub port_id : ℕ
  pub priority : Priority
  pub next_transfer_id : ℕ

pub record CyphalNode (T S V : Type 0) : Type 0 where
  pub transport : T
  pub application : S
  pub info : NodeInfo
  pub command_handler : Option (ℕ → List ℕ → S → CommandResult × List DiagnosticRecord × S)
  pub node_id_listener : Option (NodeIdListener S)
  pub providers : List (RegisterProvider S V)
  pub listeners : List (Listener S)
  pub servers : List (Server S)
  pub published_subjects : List ℕ
  pub health : Health
  pub mode : Mode
  pub vendor_status : ℕ
  pub started : Bool
  pub start_us : ℕ
  pub next_heartbeat_us : ℕ
  pub next_port_list_us : ℕ
  pub next_allocation_us : ℕ
  pub allocation_seed : ℕ
  pub heartbeat : Publisher
  pub port_list : Publisher
  pub allocation : Publisher
  pub diagnostic : Publisher

pub record GetInfoResponse : Type 0 where
  pub protocol_version : ℕ × ℕ
  pub hardware_version : ℕ × ℕ
  pub software_version : ℕ × ℕ
  pub software_vcs_revision_id : ℕ
  pub unique_id : List ℕ
  pub name : List ℕ

pub record AccessResponse (V : Type 0) : Type 0 where
  pub value : V
  pub is_mutable : Bool
  pub persistent : Bool

pub record AllocationData : Type 0 where
  pub unique_id_hash : ℕ
  pub allocated_node_id : List ℕ

pub record Heartbeat : Type 0 where
  pub uptime : ℕ
  pub health : ℕ
  pub mode : ℕ
  pub vendor_specific_status_code : ℕ

-- The serializers and deserializers that the build generates from the DSDL definitions. `none` is a negative
-- result; a serializer gives the bytes that it wrote to the buffer.
pub record Dsdl (V : Type 0) : Type 0 where
  pub get_info_extent : ℕ
  pub list_extent : ℕ
  pub access_extent : ℕ
  pub command_extent : ℕ
  pub allocation_extent : ℕ
  pub get_info_response : GetInfoResponse → Option (List ℕ)
  pub list_request : List ℕ → Option ℕ
  pub list_response : List ℕ → Option (List ℕ)
  pub access_request : List ℕ → Option (List ℕ × V)
  pub access_response : AccessResponse V → Option (List ℕ)
  pub command_request : List ℕ → Option (ℕ × List ℕ)
  pub command_response : CommandResult → Option (List ℕ)
  pub allocation_data : AllocationData → Option (List ℕ)
  pub allocation_data_of : List ℕ → Option AllocationData
  pub heartbeat_message : Heartbeat → Option (List ℕ)
  pub record_message : DiagnosticRecord → Option (List ℕ)
  pub empty_value : V
  pub is_empty : V → Bool

abbrev pub port_heartbeat : ℕ
port_heartbeat = 7509

abbrev pub port_port_list : ℕ
port_port_list = 7510

abbrev pub port_node_id_allocation : ℕ
port_node_id_allocation = 8166

abbrev pub port_diagnostic_record : ℕ
port_diagnostic_record = 8184

abbrev pub port_register_access : ℕ
port_register_access = 384

abbrev pub port_register_list : ℕ
port_register_list = 385

abbrev pub port_get_info : ℕ
port_get_info = 430

abbrev pub port_execute_command : ℕ
port_execute_command = 435

abbrev pub served_services : List ℕ
served_services =
    port_register_access ∷ port_register_list ∷ port_get_info ∷ port_execute_command ∷ []

abbrev pub unset_port_id : ℕ
unset_port_id = 65535

abbrev pub heartbeat_period_us : ℕ
heartbeat_period_us = 1000000

abbrev pub port_list_period_us : ℕ
port_list_period_us = 5000000

-- `uint64_t` sums and differences of times wrap.
abbrev pub after_us : ℕ → ℕ → ℕ
after_us at_us period_us = (at_us + period_us) % 2 ^ 64

-- The size of the transmit and the receive buffer.
abbrev pub buffer_size : ℕ
buffer_size = 600

module _ {T S V : Type 0} ⦃bus : Transport T⦄ where
  -- `NodeId`
  abbrev pub node_id : CyphalNode T S V → ℕ
  node_id n = bus.local_node_id n.transport

-- The loop of `UniqueIdHash`: one step of FNV-1a with 64 bits for each byte.
pub hash_bytes : List ℕ → ℕ → ℕ
hash_bytes [] hash = hash
hash_bytes (byte ∷ bytes) hash = hash_bytes bytes (bit_xor hash byte * 1099511628211 % 2 ^ 64)

pub unique_id_hash : NodeInfo → ℕ
unique_id_hash info = hash_bytes info.unique_id 14695981039346656037 % 2 ^ 48
