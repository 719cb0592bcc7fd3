-- ===== src/Cyphal/Node/PortList.antt =====
-- lib/cyphal/node.cpp: the Writer and the port list that it serializes by hand.
pub mod Room
pub mod Mask
pub mod MaskBits
pub mod Served
use unimoc.Prelude.{
  ℕ, zero, suc, ◌+◌, ◌*◌, ◌/◌, ◌%◌, ◌^◌, min, bit_or, Bool, List, [], ◌∷◌, ◌++◌, leb, ltb, ◌==◌,
  if◌then◌else◌, length, take,
}
use unimoc.Cyphal.Node.{
  CyphalNode, Listener, served_services, port_heartbeat, port_port_list, port_diagnostic_record,
  buffer_size,
}
use unimoc.Cyphal.Node.Setup.{services_of}

-- `written` is the buffer up to the bytes that fit; `size` also counts those that do not.
pub record Writer : Type 0 where
  pub written : List ℕ
  pub size : ℕ

abbrev pub new_writer : Writer
new_writer = record { written = []; size = 0 }

pub write_u8 : ℕ → Writer → Writer
write_u8 value w = record {
  written = if ltb w.size buffer_size then w.written ++ (value ∷ []) else w.written;
  size = w.size + 1;
}

pub write_u16 : ℕ → Writer → Writer
write_u16 value w = write_u8 (value / 2 ^ 8 % 2 ^ 8) (write_u8 (value % 2 ^ 8) w)

pub write_u32 : ℕ → Writer → Writer
write_u32 value w = write_u16 (value / 2 ^ 16) (write_u16 (value % 2 ^ 16) w)

pub fits : Writer → Bool
fits w = leb w.size buffer_size

pub write_subjects : List ℕ → Writer → Writer
write_subjects [] w = w
write_subjects (subject ∷ subjects) w = write_subjects subjects (write_u16 (subject % 2 ^ 13) w)

pub write_subject_list : List ℕ → Writer → Writer
write_subject_list subjects w =
    let count = min (length subjects) 255 in
    write_subjects (take count subjects) (write_u8 count (write_u8 1 (write_u32 (2 + 2 * count) w)))

-- The byte of the service mask at an index: a bit for each service of its eight.
pub mask_byte : List ℕ → ℕ → ℕ → ℕ
mask_byte [] index bits = bits
mask_byte (service ∷ services) index bits =
    mask_byte services index
      (if service / 8 == index then bit_or bits (2 ^ (service % 8)) % 2 ^ 8 else bits)

-- The loop over the bytes, with `count` of them left from `index` on.
pub write_mask : List ℕ → (count index : ℕ) → Writer → Writer
write_mask services zero index w = w
write_mask services (suc count) index w =
    write_mask services count (suc index) (write_u8 (mask_byte services index 0) w)

pub write_service_list : List ℕ → Writer → Writer
write_service_list services w = write_mask services 64 0 (write_u32 64 w)

abbrev pub subjects_of : {S : Type 0} → List (Listener S) → List ℕ
subjects_of [] = []
subjects_of (listener ∷ listeners) = listener.subject_id ∷ subjects_of listeners

-- What `PublishPortList` writes to the transmit buffer.
pub port_list_writer : {T S V : Type 0} → CyphalNode T S V → Writer
port_list_writer n =
    let publishers =
      port_heartbeat ∷ port_port_list ∷ port_diagnostic_record ∷ n.published_subjects in
    write_service_list (served_services ++ services_of n.servers) (
      write_service_list []
        (write_subject_list (subjects_of n.listeners) (write_subject_list publishers new_writer)))
