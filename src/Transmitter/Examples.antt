-- ===== src/Transmitter/Examples.antt =====
-- The transmitter on concrete packets.
use rs_jerry_driver.Common.{
  ℕ, ◌≡◌, ◌↔◌, refl, List, [], ◌∷◌, ok, none, some, length, replicate, length-replicate, drop, take,
  le_word, words16, arith, ◌+◌, ◌*◌, ◌/◌, ◌%◌,
}
use rs_jerry_driver.Net.{SockAddr}
use rs_jerry_driver.Header.{get_sequence_number_from_header}
use rs_jerry_driver.Transmitter.{
  Transmitter, new_transmitter, open_socket_and_connect, bind, connect, send_packet,
  next_sequence_number, set_local_sockaddr, set_dest_sockaddr,
}
use rs_jerry_driver.Transmitter.Datagram.{send_packet_lem}
use rs_jerry_driver.Transmitter.Readback.{send_packet_payload, send_packet_sequence_iff}
use rs_jerry_driver.Transmitter.Sequence.{send_all, numbered, send_all_lem}

abbrev here : SockAddr
here = record { family = 2; port = 0; addr = 0 }

abbrev sender : Transmitter
sender = record { local = here; dest = here; my_sock = 3; current_sequence_number = 4095 }

abbrev memory : List ℕ
memory = replicate 732 0

-- Only the destination's port is converted to network order.
ports :
    ((set_local_sockaddr (λ s. none) "x" 5000 sender).local.port ≡ 5000)
    × ((set_dest_sockaddr (λ s. some 7) "x" 5000 sender).dest.port ≡ 34835)
unfolding set_local_sockaddr set_dest_sockaddr
ports = (refl, refl)

send_packet_lem_example :
    send_packet memory (1 ∷ 2 ∷ []) sender
    ≡ ok (
      record sender { current_sequence_number = 0 },
      255 ∷ 15 ∷ 12 ∷ 0 ∷ 0 ∷ 0 ∷ 0 ∷ 0 ∷ 1 ∷ 0 ∷ 2 ∷ 0 ∷ [],
    )
unfolding next_sequence_number take
send_packet_lem_example =
    send_packet_lem memory (1 ∷ 2 ∷ []) sender (length-replicate {A = ℕ} 732 0) (omega arith)
      (omega arith)

abbrev counted : Transmitter → ℕ → Transmitter
counted t n = record t { current_sequence_number = n }

send_packet_payload_example :
    (t' : Transmitter) × (datagram : List ℕ) × (send_packet memory (65535 ∷ 2 ∷ []) sender
      ≡ ok (t', datagram))
    × (words16 (drop 8 datagram) ≡ 65535 ∷ 2 ∷ [])
    × (length datagram ≡ 8 + 1 * 4)
send_packet_payload_example =
    send_packet_payload memory (65535 ∷ 2 ∷ []) sender (length-replicate {A = ℕ} 732 0)
      (omega arith) (omega arith) 1 refl (omega arith)

-- A packet with the sequence number 1 is read back as 256.
sent_one :
    send_packet memory [] (counted sender 1)
    ≡ ok (counted sender 2, 1 ∷ 0 ∷ 8 ∷ 0 ∷ 0 ∷ 0 ∷ 0 ∷ 0 ∷ [])
unfolding next_sequence_number take
sent_one =
    send_packet_lem memory [] (counted sender 1) (length-replicate {A = ℕ} 732 0) (omega arith)
      (omega arith)

send_packet_sequence_iff_example :
    (get_sequence_number_from_header (le_word (take 8 (1 ∷ 0 ∷ 8 ∷ 0 ∷ 0 ∷ 0 ∷ 0 ∷ 0 ∷ []))) ≡ 1)
    ↔ (1 / 256 ≡ 1 % 256)
send_packet_sequence_iff_example =
    send_packet_sequence_iff memory [] (counted sender 1) (length-replicate {A = ℕ} 732 0)
      (omega arith) (omega arith) sent_one

-- A new transmitter counts from 0 and opens its socket between its two addresses.
opened :
    open_socket_and_connect 5 (new_transmitter sender)
    ≡ (record (counted sender 0) { my_sock = 5 }, bind 5 here ∷ connect 5 here ∷ [])
unfolding open_socket_and_connect new_transmitter
opened = refl

send_all_lem_example :
    send_all memory ((1 ∷ 2 ∷ []) ∷ [] ∷ []) sender
    ≡ ok (record sender { current_sequence_number = 1 }, numbered 4095 ((1 ∷ 2 ∷ []) ∷ [] ∷ []))
send_all_lem_example =
    send_all_lem memory ((1 ∷ 2 ∷ []) ∷ [] ∷ []) sender (length-replicate {A = ℕ} 732 0)
      (omega arith) (omega arith)
