-- ===== src/Hardware/Slcan/Ports.antt =====
-- hardware/zephyr_sim/slcan_media.cpp, the ports of SlcanMedia and their lines, over the UART driver of Zephyr,
-- of which `W` is the state. The used part of an array with a length is a list.
mod Whole
mod Tests
use unimoc.Prelude.{
  ℕ, zero, suc, ◌+◌, ◌-◌, ◌%◌, Bool, true, false, not, ◌&&◌, ◌||◌, Option, none, some, List, [],
  ◌∷◌, ◌++◌, length, take, drop, set, get_or, ltb, ◌==◌, if◌then◌else◌,
}
use unimoc.Prelude.Int.{ℤ, pos_part}
use unimoc.Hardware.Slcan.{CanFrame, LineResult, parse_line, format_frame, max_frame_text}

abbrev pub max_line : ℕ
max_line = 140

abbrev pub rx_queue_length : ℕ
rx_queue_length = 16

abbrev pub max_chars_per_pop : ℕ
max_chars_per_pop = 1024

-- `uart_fifo_fill` and `uart_poll_in` of a UART.
pub record Uarts (W : Type 0) : Type 0 where
  pub fifo_fill : ℕ → List ℕ → W → ℤ × W
  pub poll_in : ℕ → W → Option ℕ × W

pub record Port : Type 0 where
  pub uart : ℕ
  pub opens : Bool
  pub line : List ℕ
  pub line_overflow : Bool
  pub pending : List ℕ

pub record SlcanMedia : Type 0 where
  pub ports : List Port
  pub rx : List CanFrame
  pub rx_head : ℕ
  pub rx_count : ℕ

abbrev pub no_port : Port
no_port = record { uart = 0; opens = false; line = []; line_overflow = false; pending = [] }

abbrev pub no_frame : CanFrame
no_frame = record { extended_can_id = 0; size = 0; payload = [] }

abbrev pub is_empty : List ℕ → Bool
is_empty [] = true
is_empty (c ∷ text) = false

abbrev pub max_ports : ℕ
max_ports = 4

-- The port behind those in use becomes one more, with what its record held.
abbrev pub add_port : (slots ports : List Port) → Option ℕ → Bool → List Port
add_port slots ports none ready = ports
add_port slots ports (some uart) ready =
    if ready && ltb (length ports) max_ports
    then ports ++ (record (get_or slots (length ports) no_port) { uart = uart } ∷ [])
    else ports

pub init_loop : (slots ports : List Port) → List (Option ℕ × Bool) → List Port
init_loop slots ports [] = ports
init_loop slots ports ((uart, ready) ∷ uarts) =
    init_loop slots (add_port slots ports uart ready) uarts

-- `Init` over the UARTs (none: a null pointer), each with `device_is_ready`; `slots` are the ports in use before.
pub init : (slots : List Port) → List (Option ℕ × Bool) → List Port
init slots uarts = init_loop slots [] uarts

module _ {W : Type 0} (io : Uarts W) where
  pub flush : Port → W → Bool × (Port × W)
  flush port w =
      let (written, w1) = io.fifo_fill port.uart port.pending w in
      let rest = drop (pos_part written) port.pending in
      if is_empty port.pending
      then (true, (port, w))
      else (is_empty rest, (record port { pending = rest }, w1))

  -- The rest of `Write` for a text that is not empty, after a flush that left nothing pending.
  pub write_line : Port → W → List ℕ → Port × W
  write_line port w text =
      let (written, w1) = io.fifo_fill port.uart text w in
      let done = pos_part written in
      let room = max_line - length port.pending in
      if done == 0
      then (port, w1)
      else (record port { pending = port.pending ++ take room (drop done text) }, w1)

  pub write : Port → W → List ℕ → Port × W
  write port w text =
      let (flushed, (port1, w1)) = flush port w in
      if is_empty text
      then (port, w)
      else if not flushed
      then (port1, w1)
      else write_line port1 w1 text

  pub send : Port → W → CanFrame → Port × W
  send port w frame =
      if not port.opens then (port, w) else write port w (format_frame frame max_frame_text)

  -- The loops of `Push` and `Complete` over the ports, from the port `i` on; `skipped` gets no frame.
  pub send_all : List Port → (i skipped : ℕ) → W → CanFrame → List Port × W
  send_all [] i skipped w frame = ([], w)
  send_all (port ∷ ports) i skipped w frame =
      let (sent, w1) = if i == skipped then (port, w) else send port w frame in
      let (others, w2) = send_all ports (i + 1) skipped w1 frame in (sent ∷ others, w2)

  pub with_open : Port → Option Bool → Port
  with_open port none = port
  with_open port (some opens) = record port { opens = opens }

  -- The end of `Complete`: the frame of a line.
  pub receive : SlcanMedia → W → ℕ → Option CanFrame → SlcanMedia × W
  receive m w index none = (m, w)
  receive m w index (some frame) =
      let (ports, w1) = send_all m.ports 0 index w frame in
      (
        record m {
          ports = ports;
          rx = set m.rx ((m.rx_head + m.rx_count) % rx_queue_length) frame;
          rx_count = m.rx_count + 1;
        },
        w1,
      )

  pub complete : SlcanMedia → W → ℕ → SlcanMedia × W
  complete m w index =
      let port = get_or m.ports index no_port in
      let result = parse_line port.line in
      let (written, w1) = write (with_open port result.opens) w result.reply in
      receive (record m { ports = set m.ports index written }) w1 index result.frame

  -- A character that ends no line.
  pub append_char : Port → ℕ → Port
  append_char port char =
      if ltb (length port.line) max_line
      then record port { line = port.line ++ (char ∷ []) }
      else record port { line_overflow = true }

  abbrev pub is_line_end : ℕ → Bool
  is_line_end char = char == 13 || char == 10

  pub end_line : SlcanMedia → W → ℕ → SlcanMedia × W
  end_line m w index =
      let port = get_or m.ports index no_port in
      let (handled, w1) =
        if not port.line_overflow && not (is_empty port.line) then complete m w index else (m, w) in
      let after = get_or handled.ports index no_port in
      (
        record handled {
          ports = set handled.ports index (record after { line = []; line_overflow = false });
        },
        w1,
      )

  pub take_char : SlcanMedia → W → ℕ → ℕ → SlcanMedia × W
  take_char m w index char =
      let port = get_or m.ports index no_port in
      if is_line_end char
      then end_line m w index
      else (record m { ports = set m.ports index (append_char port char) }, w)

  -- The loop of `Poll` with `left` rounds to go.
  pub poll_loop : SlcanMedia → W → (index left : ℕ) → SlcanMedia × W
  poll_loop m w index zero = (m, w)
  poll_loop m w index (suc left) =
      let (received, w1) = io.poll_in (get_or m.ports index no_port).uart w in
      let next : SlcanMedia × W = elim received [
        | none ↦ (m, w1)
        | some char ↦ let (taken, w2) = take_char m w1 index char in poll_loop taken w2 index left
      ] in
      if ltb m.rx_count rx_queue_length then next else (m, w)

  pub poll : SlcanMedia → W → ℕ → SlcanMedia × W
  poll m w index =
      let (_, (port, w1)) = flush (get_or m.ports index no_port) w in
      poll_loop (record m { ports = set m.ports index port }) w1 index max_chars_per_pop

  -- The loop of `Pop` over the ports from `i` on.
  pub poll_all : SlcanMedia → W → (i left : ℕ) → SlcanMedia × W
  poll_all m w i zero = (m, w)
  poll_all m w i (suc left) = let (polled, w1) = poll m w i in poll_all polled w1 (i + 1) left

  pub pop : SlcanMedia → W → Option CanFrame × (SlcanMedia × W)
  pop m w =
      let (polled, w1) = poll_all m w 0 (length m.ports) in
      if polled.rx_count == 0 then (none, (polled, w1)) else (
        some (get_or polled.rx polled.rx_head no_frame),
        (
          record polled {
            rx_head = (polled.rx_head + 1) % rx_queue_length;
            rx_count = polled.rx_count - 1;
          },
          w1,
        ),
      )

  pub push : SlcanMedia → W → CanFrame → SlcanMedia × W
  push m w frame =
      let (ports, w1) = send_all m.ports 0 (length m.ports) w frame in
      (record m { ports = ports }, w1)
