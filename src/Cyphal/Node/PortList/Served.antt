-- ===== src/Cyphal/Node/PortList/Served.antt =====
-- lib/cyphal/node.cpp, PublishPortList: its size, and the services that a reader finds in its last mask.
use unimoc.Prelude.{
  ℕ, suc, ◌+◌, ◌-◌, ◌*◌, ◌/◌, ◌%◌, ◌≡◌, ◌≤◌, refl, ap, true, List, [], ◌∷◌, ◌++◌, if◌then◌else◌,
  length, get_or, arith,
}
use unimoc.Cyphal.Node.{
  CyphalNode, Listener, served_services, port_heartbeat, port_port_list, port_diagnostic_record,
}
use unimoc.Cyphal.Node.Setup.{contains, services_of}
use unimoc.Cyphal.Node.Setup.Capacity.{IsWithin}
use unimoc.Cyphal.Node.PortList.Mask.{Masked, masked, write_mask-Masked, write_service_list-Room}
use unimoc.Cyphal.Node.PortList.MaskBits.{bit_of, bit_of-zero, mask_byte-bit}
use unimoc.Cyphal.Node.PortList.Room.{Room, room, write_u32-Room, write_subject_list-Room}
use unimoc.Cyphal.Node.PortList.{
  Writer, new_writer, write_u8, write_u16, write_u32, write_subject_list, write_service_list,
  subjects_of, port_list_writer, fits,
}

write_u32-size : (v : ℕ) (w : Writer) → (write_u32 v w).size ≡ w.size + 4
unfolding write_u32 write_u16 write_u8
write_u32-size v w = omega arith

length-subjects_of :
    {S : Type 0} (listeners : List (Listener S)) → length (subjects_of listeners) ≡ length listeners
length-subjects_of [] = refl
length-subjects_of (l ∷ listeners) = ap suc (length-subjects_of listeners)

mask_at :
    (services : List ℕ) (w : Writer) (size service : ℕ) {w' : Writer}
    → w.size ≡ size + 4
    → service ≤ 511
    → Masked services w 64 0 w'
    → (w'.size ≡ size + 68)
      × (bit_of (get_or w'.written (size + 4 + service / 8) 0) (service % 8)
          ≡ (if contains service services then 1 else 0))
mask_at services w size service start valid (masked sized before here) =
    let place : size + 4 + service / 8 ≡ w.size + service / 8 = omega arith in
    let byte : 0 + service / 8 ≡ service / 8 = omega arith in
    let whole : 8 * (service / 8) + service % 8 ≡ service = omega arith in
    let found = rw (byte) at (here (service / 8) (omega arith)) in
    let bit = mask_byte-bit services (service / 8) 0 (service % 8) (omega arith) (omega arith) in
    let none = bit_of-zero (service % 8) (omega arith) in
    (omega arith, rw (place, found) (rw (whole, none) at bit))

write_service_list-bit :
    (services : List ℕ) (w : Writer) (service : ℕ)
    → Room w 68
    → service ≤ 511
    → ((write_service_list services w).size ≡ w.size + 68)
      × (bit_of
            (get_or (write_service_list services w).written (w.size + 4 + service / 8) 0)
            (service % 8)
          ≡ (if contains service services then 1 else 0))
unfolding write_service_list
write_service_list-bit services w service (room full fit) valid =
    let header = write_u32-Room 64 64 w (room full (omega arith)) in
    mask_at services (write_u32 64 w) w.size service (write_u32-size 64 w) valid
      ((write_mask-Masked services 64 0 0 (write_u32 64 w) header).1)

list_end :
    (size size' service : ℕ) → size' ≡ size + 68 → size' - 64 + service / 8 ≡ size + 4 + service / 8
list_end size size' service h = omega arith

services_fit :
    (services : List ℕ) (w : Writer)
    → Room w 68
    → (write_service_list services w).size ≡ w.size + 68
    → fits (write_service_list services w) ≡ true
unfolding fits
services_fit services w (room full fit) size = ground arith

-- The port list of a node within its sizes fits the transmit buffer, and a reader finds in its last 64 bytes,
-- the mask of the served services, the bit of a service-ID up to 511 exactly when it is a standard service or
-- one that the application added.
pub port_list_services :
    {T S V : Type 0} (n : CyphalNode T S V) (service : ℕ)
    → IsWithin n
    → service ≤ 511
    → let w : Writer = port_list_writer n in
      (fits w ≡ true)
      × (bit_of (get_or w.written (w.size - 64 + service / 8) 0) (service % 8)
          ≡ (if contains service (served_services ++ services_of n.servers) then 1 else 0))
unfolding port_list_writer
port_list_services n service within valid =
    let publishers =
      port_heartbeat ∷ port_port_list ∷ port_diagnostic_record ∷ n.published_subjects in
    let subjects = subjects_of n.listeners in
    let subscribed = length-subjects_of n.listeners in
    let published = write_subject_list publishers new_writer in
    let listened = write_subject_list subjects published in
    let start : Room new_writer
        (68 + 68 + (6 + 2 * length subjects) + (6 + 2 * length publishers)) =
      room refl (omega (arith, within.listeners_fit, within.publishers_fit)) in
    let clients = write_service_list-Room [] 68 listened (
      write_subject_list-Room subjects (68 + 68) published (
        write_subject_list-Room publishers (68 + 68 + (6 + 2 * length subjects)) new_writer
          start)) in
    let services = served_services ++ services_of n.servers in
    let before = write_service_list [] listened in
    let (size, bit) = write_service_list-bit services before service clients valid in
    let end = list_end before.size (write_service_list services before).size service size in
    (services_fit services before clients size, rw (end) bit)
