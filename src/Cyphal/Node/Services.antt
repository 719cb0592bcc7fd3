-- ===== src/Cyphal/Node/Services.antt =====
-- lib/cyphal/node.cpp: the answers to service requests and the plug-and-play response, as Dispatch calls them.
pub mod Registers
pub mod Access
pub mod Allocation
pub mod Answers
use unimoc.Prelude.{
  ℕ, zero, suc, ◌-◌, min, Bool, true, false, not, ◌&&◌, ◌||◌, Option, none, some, List, [], ◌∷◌,
  leb, ltb, ◌==◌, if◌then◌else◌, length, take, get_or, same_bytes,
}
use unimoc.Cyphal.Transport.{
  Transport, Transfer, TransferKind, message, service_request, service_response, node_id_unset,
  node_id_max,
}
use unimoc.Cyphal.Node.{
  CyphalNode, NodeInfo, CommandResult, RegisterProvider, RegisterFlags, DiagnosticRecord, Listener,
  NodeIdListener, Server, Dsdl, GetInfoResponse, AccessResponse, AllocationData, node_id,
  unique_id_hash, buffer_size, port_get_info, port_register_list, port_register_access,
  port_execute_command, port_node_id_allocation,
}
use unimoc.Cyphal.Node.Log.{log_all}
use unimoc.Cyphal.Node.Setup.{subscribe}

abbrev pub node_name_max_len : ℕ
node_name_max_len = 50

abbrev pub register_name_capacity : ℕ
register_name_capacity = 255

abbrev pub command_output_max_length : ℕ
command_output_max_length = 46

abbrev pub status_bad_command : ℕ
status_bad_command = 3

-- The inner loop of `FindRegister`, with `count` registers left from `index` on.
pub find_name : (name_at : ℕ → List ℕ) → List ℕ → (count index : ℕ) → Option ℕ
find_name name_at name zero index = none
find_name name_at name (suc count) index =
    let rest = find_name name_at name count (suc index) in
    if same_bytes (name_at index) name then some index else rest

module _ {S V : Type 0} where
  pub found_in :
      RegisterProvider S V
      → Option ℕ
      → Option (RegisterProvider S V × ℕ)
      → Option (RegisterProvider S V × ℕ)
  found_in provider none rest = rest
  found_in provider (some index) rest = some (provider, index)

  pub find_register : List (RegisterProvider S V) → List ℕ → S → Option (RegisterProvider S V × ℕ)
  find_register [] name s = none
  find_register (provider ∷ providers) name s =
      found_in provider (find_name (λ i. provider.name i s) name (provider.count s) 0)
        (find_register providers name s)

  -- The loop of `HandleRegisterList`: the name at an index over all providers, empty when there is none.
  pub listed_name : List (RegisterProvider S V) → ℕ → S → List ℕ
  listed_name [] index s = []
  listed_name (provider ∷ providers) index s =
      if ltb index (provider.count s)
      then take register_name_capacity (provider.name index s)
      else listed_name providers (index - provider.count s) s

  pub access_found :
      ⦃dsdl : Dsdl V⦄ → Option (RegisterProvider S V × ℕ) → V → S → AccessResponse V × S
  access_found ⦃dsdl⦄ none value s =
      (record { value = dsdl.empty_value; is_mutable = false; persistent = false }, s)
  access_found ⦃dsdl⦄ (some (provider, index)) value s =
      let flags = (provider.read index s).0 in
      let written =
        if not (dsdl.is_empty value) && flags.is_mutable then provider.write index value s else s in
      (
        record {
          value = (provider.read index written).1;
          is_mutable = flags.is_mutable;
          persistent = flags.is_persistent;
        },
        written,
      )

  pub access_register :
      ⦃dsdl : Dsdl V⦄ → List (RegisterProvider S V) → List ℕ → V → S → AccessResponse V × S
  access_register providers name value s = access_found (find_register providers name s) value s

pub run_command :
    {S : Type 0}
    → Option (ℕ → List ℕ → S → CommandResult × List DiagnosticRecord × S)
    → ℕ
    → List ℕ
    → S
    → CommandResult × List DiagnosticRecord × S
run_command none command parameter s = (record { status = status_bad_command; output = [] }, [], s)
run_command (some handler) command parameter s =
    let (result, entries, after) = handler command parameter s in
    (
      record { status = result.status; output = take command_output_max_length result.output },
      entries,
      after,
    )

module _ {S : Type 0} where
  -- The loop of `HandleApplicationRequest` up to the call of the handler.
  pub find_server : List (Server S) → ℕ → Option (Server S)
  find_server [] port = none
  find_server (server ∷ servers) port =
      if server.service_id == port then some server else find_server servers port

pub is_allocation : NodeInfo → AllocationData → Bool
is_allocation info response =
    (length response.allocated_node_id == 1)
    && (response.unique_id_hash == unique_id_hash info)
    && leb (get_or response.allocated_node_id 0 0) node_id_max

pub get_info : NodeInfo → GetInfoResponse
get_info info = record {
  protocol_version = (1, 0);
  hardware_version = (info.hardware_major, info.hardware_minor);
  software_version = (info.software_major, info.software_minor);
  software_vcs_revision_id = info.vcs_revision_id;
  unique_id = info.unique_id;
  name = take node_name_max_len info.name;
}

module _ {T S V : Type 0} ⦃bus : Transport T⦄ where
  pub response_to : Transfer → List ℕ → CyphalNode T S V → Transfer
  response_to request payload n = record {
    port_id = request.port_id;
    source_node_id = node_id n;
    destination_node_id = request.source_node_id;
    transfer_id = request.transfer_id;
    kind = service_response;
    priority = request.priority;
    payload = payload;
  }

  pub respond : Transfer → List ℕ → CyphalNode T S V → CyphalNode T S V
  respond request payload n = record n {
    transport = (bus.send (response_to request payload n) n.transport).1;
  }

  -- The end of a handler: the response goes out when it was serialized.
  pub respond_if : Transfer → Option (List ℕ) → CyphalNode T S V → CyphalNode T S V
  respond_if request none n = n
  respond_if request (some payload) n = respond request payload n

  -- The size that a handler reports must fit the buffer.
  pub respond_sized : Transfer → Option (ℕ × List ℕ) → CyphalNode T S V → CyphalNode T S V
  respond_sized request none n = n
  respond_sized request (some (size, buffer)) n =
      if leb size buffer_size then respond request (take size buffer) n else n

  pub serve : Transfer → Option (Server S) → CyphalNode T S V → CyphalNode T S V
  serve request none n = n
  serve request (some server) n =
      let answer = server.on_request request n.application in
      respond_sized request (answer.0) (record n { application = answer.1 })

  pub handle_application_request : Transfer → CyphalNode T S V → CyphalNode T S V
  handle_application_request request n = serve request (find_server n.servers request.port_id) n

module _ {T S V : Type 0} ⦃bus : Transport T⦄ ⦃dsdl : Dsdl V⦄ where
  -- What a listener or handler did to the application and logged.
  pub acted : List DiagnosticRecord → S → CyphalNode T S V → CyphalNode T S V
  acted entries s n = log_all entries (record n { application = s })

  -- The loop of `Dispatch` over the listeners.
  pub deliver : List (Listener S) → Transfer → ℕ → CyphalNode T S V → CyphalNode T S V
  deliver [] m now_us n = n
  deliver (listener ∷ listeners) m now_us n =
      let (entries, s) = listener.on_message m now_us n.application in
      deliver listeners m now_us (if listener.subject_id == m.port_id then acted entries s n else n)

  pub subscribe_for : Option (Listener S × ℕ) → CyphalNode T S V → Bool × CyphalNode T S V
  subscribe_for none n = (true, n)
  subscribe_for (some (listener, extent)) n = subscribe listener extent n

  pub notify : Option (NodeIdListener S) → ℕ → CyphalNode T S V → CyphalNode T S V
  notify none id n = n
  notify (some listener) id n =
      let (subscribed, n') = subscribe_for (listener.subscription id n.application) n in
      let (entries, s) = listener.on_allocated id subscribed n'.application in acted entries s n'

  pub handle_get_info : Transfer → CyphalNode T S V → CyphalNode T S V
  handle_get_info request n = respond_if request (dsdl.get_info_response (get_info n.info)) n

  pub list_register : Transfer → Option ℕ → CyphalNode T S V → CyphalNode T S V
  list_register request none n = n
  list_register request (some index) n =
      respond_if request (dsdl.list_response (listed_name n.providers index n.application)) n

  pub handle_register_list : Transfer → CyphalNode T S V → CyphalNode T S V
  handle_register_list request n = list_register request (dsdl.list_request request.payload) n

  pub access : Transfer → Option (List ℕ × V) → CyphalNode T S V → CyphalNode T S V
  access request none n = n
  access request (some (name, value)) n =
      let answer = access_register n.providers name value n.application in
      respond_if request (dsdl.access_response (answer.0)) (record n { application = answer.1 })

  pub handle_register_access : Transfer → CyphalNode T S V → CyphalNode T S V
  handle_register_access request n = access request (dsdl.access_request request.payload) n

  pub execute : Transfer → Option (ℕ × List ℕ) → CyphalNode T S V → CyphalNode T S V
  execute request none n = n
  execute request (some (command, parameter)) n =
      let (result, entries, s) = run_command n.command_handler command parameter n.application in
      respond_if request (dsdl.command_response result) (acted entries s n)

  pub handle_execute_command : Transfer → CyphalNode T S V → CyphalNode T S V
  handle_execute_command request n = execute request (dsdl.command_request request.payload) n

  pub accept_node_id : ℕ → CyphalNode T S V → CyphalNode T S V
  accept_node_id id n =
      notify n.node_id_listener id
        (record n { transport = bus.set_local_node_id id n.transport; next_heartbeat_us = 0 })

  pub allocate : Option AllocationData → CyphalNode T S V → CyphalNode T S V
  allocate none n = n
  allocate (some response) n =
      if is_allocation n.info response
      then accept_node_id (get_or response.allocated_node_id 0 0) n
      else n

  pub handle_allocation : Transfer → CyphalNode T S V → CyphalNode T S V
  handle_allocation m n =
      if not (node_id n == node_id_unset) || (m.source_node_id == node_id_unset)
      then n
      else allocate (dsdl.allocation_data_of m.payload) n

  -- The service requests of `Dispatch`.
  pub dispatch_request : Transfer → CyphalNode T S V → CyphalNode T S V
  dispatch_request t n =
      if t.port_id == port_get_info
      then handle_get_info t n
      else if t.port_id == port_register_list
      then handle_register_list t n
      else if t.port_id == port_register_access
      then handle_register_access t n
      else if t.port_id == port_execute_command
      then handle_execute_command t n
      else handle_application_request t n

  pub dispatch_message : Transfer → ℕ → CyphalNode T S V → CyphalNode T S V
  dispatch_message t now_us n =
      if t.port_id == port_node_id_allocation
      then handle_allocation t n
      else deliver n.listeners t now_us n

  pub dispatch_kind : TransferKind → Transfer → ℕ → CyphalNode T S V → CyphalNode T S V
  dispatch_kind service_request t now_us n =
      if node_id n == node_id_unset then n else dispatch_request t n
  dispatch_kind service_response t now_us n = n
  dispatch_kind message t now_us n = dispatch_message t now_us n

  pub dispatch : Transfer → ℕ → CyphalNode T S V → CyphalNode T S V
  dispatch t now_us n = dispatch_kind t.kind t now_us n
