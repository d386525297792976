-- ===== src/Examples/SecondSet.antt =====
-- core_sim/src/decode_instr_2nd.rs: a branch of the second instruction set.
use cpuex2022_7_simulator.Common.{◌≡◌, ◌^◌, ◌-◌, inr, arith, refl, ok}
use cpuex2022_7_simulator.Isa2nd.{p_fmt, blti}
use cpuex2022_7_simulator.Isa2nd.Decode.{decode_from}
use cpuex2022_7_simulator.Isa2nd.Encode.{encode}
use cpuex2022_7_simulator.Isa2nd.RoundTrip.{decode_from-encode}

-- blti x40, -3, -8
decode_from-encode_example :
    decode_from (encode (p_fmt blti 40 (2 ^ 32 - 8) (2 ^ 32 - 3)))
    ≡ ok (p_fmt blti 40 (2 ^ 32 - 8) (2 ^ 32 - 3))
decode_from-encode_example =
    decode_from-encode (p_fmt blti 40 (2 ^ 32 - 8) (2 ^ 32 - 3))
      (omega arith, (inr (omega arith, omega arith), refl), inr (omega arith, omega arith))
