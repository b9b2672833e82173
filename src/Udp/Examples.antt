-- ===== src/Udp/Examples.antt =====
-- The UDP source on concrete datagrams.
use rs_jerry_driver.Common.{
  ℕ, ◌≡◌, refl, pos, negsuc, List, [], ◌∷◌, Option, some, ok, err, undefined, exit_process, none,
  replicate, length-replicate, arith, int16, words16, get_elem?, ◌+◌, ◌<◌, true,
}
use rs_jerry_driver.Floats.{Complex}
use rs_jerry_driver.Testing.{fractions, unit}
use rs_jerry_driver.Parser.{new_hrzr_parser}
use rs_jerry_driver.Parser.Loop.{sample}
use rs_jerry_driver.Udp.{
  UdpSource, Receiving, datagram, failed, get_samples, receive_packet, packets_to_dequeue,
  receive_from, recv, connect, set_ip, set_port, new_udp_source, Sockets, exit_unless,
}
use rs_jerry_driver.Udp.Receive.{carrier, kind}
use rs_jerry_driver.Udp.Loop.{AreReceived, get_samples-AreReceived, get_samples_overflow}
use rs_jerry_driver.Udp.Offset.{packet, receive_packet_offset}

abbrev blank : Complex (fractions.Float)
blank = record { real = unit; imag = unit }

abbrev source : UdpSource fractions
source = record {
  ip = "";
  port = pos 0;
  buf = replicate 1472 0;
  si_other = record { family = 2; port = 0; addr = 0 };
  s = 3;
  hrzr_parser = record { norm = (pos 10, pos 1) };
}

abbrev payload : List ℕ
payload = replicate 1464 7

abbrev data_bytes : List ℕ
data_bytes = packet 0 9 5 192 0 0 0 0 payload

abbrev receiving : ℕ → Receiving fractions
receiving n = record {
  source = source;
  samples = replicate n blank;
  queue = datagram data_bytes ∷ [];
}

abbrev sockets : Option ℕ → Sockets
sockets address = record { socket = some 9; inet_pton = λ s. address; bind = λ s a. true }

-- The constructor binds to the port 12, whatever port is set.
constructed :
    new_udp_source fractions
      (sockets (some 7))
      (set_port fractions (pos 80) (set_ip fractions "a" source))
      unit
    ≡ ok (record source {
      port = pos 80;
      s = 9;
      si_other = record { family = 2; port = 3072; addr = 7 };
      hrzr_parser = record { norm = unit };
    })
unfolding new_udp_source set_port set_ip connect new_hrzr_parser exit_unless
constructed = refl

no_address : new_udp_source fractions (sockets none) source unit ≡ err exit_process
unfolding new_udp_source connect new_hrzr_parser exit_unless
no_address = refl

rounds :
    (packets_to_dequeue (pos 365) ≡ 1)
    × (packets_to_dequeue (pos 366) ≡ 2)
    × (packets_to_dequeue (negsuc 364) ≡ 1)
    × (packets_to_dequeue (negsuc 365) ≡ 0)
unfolding packets_to_dequeue
rounds = (refl, refl, refl, refl)

socket_fails :
    get_samples fractions (pos 1) (record (receiving 366) { queue = failed ∷ [] })
    ≡ err exit_process
unfolding get_samples packets_to_dequeue receive_from receive_packet recv
socket_fails = refl

data_kind : kind data_bytes ≡ carrier
unfolding replicate
data_kind = refl

get_samples-AreReceived_example :
    AreReceived fractions 0
      (data_bytes ∷ [])
      []
      0
      (receiving 366)
      (get_samples fractions (pos 10) (receiving 366))
unfolding packets_to_dequeue
get_samples-AreReceived_example =
    get_samples-AreReceived fractions (pos 10) (data_bytes ∷ []) [] (receiving 366) refl refl
      (length-replicate 1472 0) ((λ e. cc data_kind), tt)
      (omega (arith, length-replicate 366 blank)) (omega arith)

get_samples_overflow_example : get_samples fractions (pos 10) (receiving 10) ≡ err undefined
get_samples_overflow_example =
    get_samples_overflow fractions 10 [] [] data_bytes (receiving 10) refl refl
      (length-replicate 1472 0) tt data_kind (length-replicate 10 blank)

receive_packet_offset_example :
    let r = receiving 366 in
    (out : Receiving fractions) × (receive_packet fractions 0 r ≡ ok (out, 366))
    × (get_elem? out.samples 0
        ≡ some (record { real = (int16 2304, pos 10); imag = (int16 49157, pos 10) }))
    × (get_elem? out.samples 1
        ≡ some (record { real = (int16 0, pos 10); imag = (int16 0, pos 10) }))
    × ((k : ℕ)
        → k < 364
        → get_elem? out.samples (0 + (k + 2))
          ≡ some (sample fractions source.hrzr_parser (words16 payload) k))
receive_packet_offset_example =
    receive_packet_offset fractions 0 9 5 192 0 0 0 0 payload 0 [] (receiving 366)
      (omega (arith, length-replicate {A = ℕ} 1464 7)) refl (length-replicate 1472 0) data_kind
      (omega (arith, length-replicate 366 blank)) (omega arith)
