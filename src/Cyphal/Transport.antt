-- ===== src/Cyphal/Transport.antt =====
-- lib/cyphal/transport.hpp: the boundary between the Cyphal node and the bus. `Transport` is an interface of
-- the program; a transport is a type of states with the methods as functions on it.
use unimoc.Prelude.{ℕ, ◌≡◌, Bool, List}

pub data TransferKind : Type 0 where
  message service_request service_response : TransferKind

pub data Priority : Type 0 where
  exceptional immediate fast high nominal low slow optional : Priority

pub record Transfer : Type 0 where
  pub port_id : ℕ
  pub source_node_id : ℕ
  pub destination_node_id : ℕ
  pub transfer_id : ℕ
  pub kind : TransferKind
  pub priority : Priority
  pub payload : List ℕ

pub data ReceiveResult : Type 0 where
  no_transfer error : ReceiveResult
  received : Transfer → ReceiveResult

abbrev pub node_id_unset : ℕ
node_id_unset = 255

abbrev pub node_id_max : ℕ
node_id_max = 127

pub record Transport (T : Type 0) : Type 0 where
  pub send : Transfer → T → Bool × T
  -- The first argument is the size of the payload buffer.
  pub receive : ℕ → T → ReceiveResult × T
  -- `subscribe kind port_id extent`
  pub subscribe : TransferKind → ℕ → ℕ → T → Bool × T
  pub set_local_node_id : ℕ → T → T
  pub local_node_id : T → ℕ
  pub process : ℕ → T → T

-- What the comments of the interface promise: only SetLocalNodeId() changes the local node-ID.
pub record IsTransport {T : Type 0} (bus : Transport T) : Type 0 where
  pub local_set : (id : ℕ) (t : T) → bus.local_node_id (bus.set_local_node_id id t) ≡ id
  pub local_send :
      (m : Transfer) (t : T) → bus.local_node_id ((bus.send m t).1) ≡ bus.local_node_id t
  pub local_receive :
      (size : ℕ) (t : T) → bus.local_node_id ((bus.receive size t).1) ≡ bus.local_node_id t
  pub local_subscribe :
      (kind : TransferKind) (port extent : ℕ) (t : T)
      → bus.local_node_id ((bus.subscribe kind port extent t).1) ≡ bus.local_node_id t
  pub local_process :
      (now_us : ℕ) (t : T) → bus.local_node_id (bus.process now_us t) ≡ bus.local_node_id t
