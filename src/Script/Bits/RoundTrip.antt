-- ===== src/Script/Bits/RoundTrip.antt =====
-- `convertBits` of include/gs++/scriptpubkey.hpp on bytes, and back.
use cpp_slp_graph_search.Prelude.{
  ℕ, ◌+◌, ◌*◌, ◌/◌, ◌%◌, ◌<◌, ◌≡◌, List, [], ◌∷◌, some, true, false, arith, All,
}
use cpp_slp_graph_search.Util.Bytes.{Byte}
use cpp_slp_graph_search.Script.{regroup, convert_bits, last_bits}
use cpp_slp_graph_search.Script.Bits.{
  Continues, encode0, encode3, encode1, encode4, encode2, decode0, decode5, decode2, decode7,
  decode4, decode1, decode6, decode3, encode_end3, encode_end1, encode_end4, encode_end2,
  decode_end2, decode_end4, decode_end1, decode_end3,
}

-- The groups of five bits that bytes make, in both directions, from any accumulator.
pub record IsGrouped (bytes groups : List ℕ) : Type 0 where
  pub encoded : Continues 8 5 false bytes 0 (λ a. Unit) groups
  pub decoded : Continues 5 8 true groups 0 (λ a. Unit) bytes

nothing-IsGrouped : IsGrouped [] []
unfolding regroup last_bits
nothing-IsGrouped = record { encoded = λ acc u. ground arith; decoded = λ acc u. ground arith }

one-IsGrouped : (b1 : ℕ) → b1 < 256 → IsGrouped (b1 ∷ []) ((b1 / 8) ∷ (b1 % 8 * 4) ∷ [])
one-IsGrouped b1 h1 = record {
  encoded = λ acc u. encode0 b1 acc ([]) ((b1 % 8 * 4) ∷ []) h1 λ a1 e1. encode_end3 a1 (b1 % 8) e1;
  decoded = λ acc u. decode0 (b1 / 8) acc ((b1 % 8 * 4) ∷ []) (b1 ∷ []) (omega arith) λ c1 k1.
      decode5 (b1 % 8 * 4) c1 ((b1 / 8)) b1 ([]) ([]) (omega arith) k1 (omega arith)
        λ c2 k2. decode_end2 c2 (omega (arith, k2));
}

two-IsGrouped :
    (b1 b2 : ℕ)
    → b1 < 256
    → b2 < 256
    → IsGrouped
        (b1 ∷ b2 ∷ [])
        ((b1 / 8) ∷ (b1 % 8 * 4 + b2 / 64) ∷ (b2 / 2 % 32) ∷ (b2 % 2 * 16) ∷ [])
two-IsGrouped b1 b2 h1 h2 = record {
  encoded = λ acc u.
      encode0 b1 acc (b2 ∷ []) ((b1 % 8 * 4 + b2 / 64) ∷ (b2 / 2 % 32) ∷ (b2 % 2 * 16) ∷ []) h1
        λ a1 e1.
          encode3 b2 a1 (b1 % 8) ([]) ((b2 % 2 * 16) ∷ []) h2 e1
            λ a2 e2. encode_end1 a2 (b2 % 2) e2;
  decoded = λ acc u.
      decode0 (b1 / 8) acc ((b1 % 8 * 4 + b2 / 64) ∷ (b2 / 2 % 32) ∷ (b2 % 2 * 16) ∷ [])
        (b1 ∷ b2 ∷ []) (omega arith)
        λ c1 k1.
          decode5 (b1 % 8 * 4 + b2 / 64) c1 ((b1 / 8)) b1 ((b2 / 2 % 32) ∷ (b2 % 2 * 16) ∷ [])
            (b2 ∷ []) (omega arith) k1 (omega arith)
            λ c2 k2.
              decode2 (b2 / 2 % 32) c2 ((b1 % 8 * 4 + b2 / 64) % 4) ((b2 % 2 * 16) ∷ []) (b2 ∷ [])
                (omega arith) k2
                λ c3 k3.
                  decode7 (b2 % 2 * 16) c3 (((b1 % 8 * 4 + b2 / 64) % 4) * 32 + (b2 / 2 % 32)) b2
                    ([]) ([]) (omega arith) k3 (omega arith)
                    λ c4 k4. decode_end4 c4 (omega (arith, k4));
}

three-IsGrouped :
    (b1 b2 b3 : ℕ)
    → b1 < 256
    → b2 < 256
    → b3 < 256
    → IsGrouped (b1 ∷ b2 ∷ b3 ∷ []) (
        (b1 / 8)
        ∷ (b1 % 8 * 4 + b2 / 64)
        ∷ (b2 / 2 % 32)
        ∷ (b2 % 2 * 16 + b3 / 16)
        ∷ (b3 % 16 * 2)
        ∷ [])
three-IsGrouped b1 b2 b3 h1 h2 h3 = record {
  encoded = λ acc u.
      encode0 b1 acc (b2 ∷ b3 ∷ [])
        ((b1 % 8 * 4 + b2 / 64) ∷ (b2 / 2 % 32) ∷ (b2 % 2 * 16 + b3 / 16) ∷ (b3 % 16 * 2) ∷ []) h1
        λ a1 e1.
          encode3 b2 a1 (b1 % 8) (b3 ∷ []) ((b2 % 2 * 16 + b3 / 16) ∷ (b3 % 16 * 2) ∷ []) h2 e1
            λ a2 e2.
              encode1 b3 a2 (b2 % 2) ([]) ((b3 % 16 * 2) ∷ []) h3 e2
                λ a3 e3. encode_end4 a3 (b3 % 16) e3;
  decoded = λ acc u.
      decode0 (b1 / 8) acc
        ((b1 % 8 * 4 + b2 / 64) ∷ (b2 / 2 % 32) ∷ (b2 % 2 * 16 + b3 / 16) ∷ (b3 % 16 * 2) ∷ [])
        (b1 ∷ b2 ∷ b3 ∷ []) (omega arith)
        λ c1 k1.
          decode5 (b1 % 8 * 4 + b2 / 64) c1 ((b1 / 8)) b1
            ((b2 / 2 % 32) ∷ (b2 % 2 * 16 + b3 / 16) ∷ (b3 % 16 * 2) ∷ []) (b2 ∷ b3 ∷ [])
            (omega arith) k1 (omega arith)
            λ c2 k2.
              decode2 (b2 / 2 % 32) c2 ((b1 % 8 * 4 + b2 / 64) % 4)
                ((b2 % 2 * 16 + b3 / 16) ∷ (b3 % 16 * 2) ∷ []) (b2 ∷ b3 ∷ []) (omega arith) k2
                λ c3 k3.
                  decode7 (b2 % 2 * 16 + b3 / 16) c3
                    (((b1 % 8 * 4 + b2 / 64) % 4) * 32 + (b2 / 2 % 32)) b2 ((b3 % 16 * 2) ∷ [])
                    (b3 ∷ []) (omega arith) k3 (omega arith)
                    λ c4 k4.
                      decode4 (b3 % 16 * 2) c4 ((b2 % 2 * 16 + b3 / 16) % 16) b3 ([]) ([])
                        (omega arith) k4 (omega arith) λ c5 k5. decode_end1 c5 (omega (arith, k5));
}

four-IsGrouped :
    (b1 b2 b3 b4 : ℕ)
    → b1 < 256
    → b2 < 256
    → b3 < 256
    → b4 < 256
    → IsGrouped (b1 ∷ b2 ∷ b3 ∷ b4 ∷ []) (
        (b1 / 8)
        ∷ (b1 % 8 * 4 + b2 / 64)
        ∷ (b2 / 2 % 32)
        ∷ (b2 % 2 * 16 + b3 / 16)
        ∷ (b3 % 16 * 2 + b4 / 128)
        ∷ (b4 / 4 % 32)
        ∷ (b4 % 4 * 8)
        ∷ [])
four-IsGrouped b1 b2 b3 b4 h1 h2 h3 h4 = record {
  encoded = λ acc u.
      encode0 b1 acc (b2 ∷ b3 ∷ b4 ∷ [])
        ((b1 % 8 * 4 + b2 / 64)
          ∷ (b2 / 2 % 32)
          ∷ (b2 % 2 * 16 + b3 / 16)
          ∷ (b3 % 16 * 2 + b4 / 128)
          ∷ (b4 / 4 % 32)
          ∷ (b4 % 4 * 8)
          ∷ [])
        h1
        λ a1 e1.
          encode3 b2 a1 (b1 % 8) (b3 ∷ b4 ∷ [])
            ((b2 % 2 * 16 + b3 / 16) ∷ (b3 % 16 * 2 + b4 / 128) ∷ (b4 / 4 % 32) ∷ (b4 % 4 * 8) ∷ [])
            h2 e1
            λ a2 e2.
              encode1 b3 a2 (b2 % 2) (b4 ∷ [])
                ((b3 % 16 * 2 + b4 / 128) ∷ (b4 / 4 % 32) ∷ (b4 % 4 * 8) ∷ []) h3 e2
                λ a3 e3.
                  encode4 b4 a3 (b3 % 16) ([]) ((b4 % 4 * 8) ∷ []) h4 e3
                    λ a4 e4. encode_end2 a4 (b4 % 4) e4;
  decoded = λ acc u.
      decode0 (b1 / 8) acc
        ((b1 % 8 * 4 + b2 / 64)
          ∷ (b2 / 2 % 32)
          ∷ (b2 % 2 * 16 + b3 / 16)
          ∷ (b3 % 16 * 2 + b4 / 128)
          ∷ (b4 / 4 % 32)
          ∷ (b4 % 4 * 8)
          ∷ [])
        (b1 ∷ b2 ∷ b3 ∷ b4 ∷ []) (omega arith)
        λ c1 k1.
          decode5 (b1 % 8 * 4 + b2 / 64) c1 ((b1 / 8)) b1
            ((b2 / 2 % 32)
              ∷ (b2 % 2 * 16 + b3 / 16)
              ∷ (b3 % 16 * 2 + b4 / 128)
              ∷ (b4 / 4 % 32)
              ∷ (b4 % 4 * 8)
              ∷ [])
            (b2 ∷ b3 ∷ b4 ∷ []) (omega arith) k1 (omega arith)
            λ c2 k2.
              decode2 (b2 / 2 % 32) c2 ((b1 % 8 * 4 + b2 / 64) % 4)
                ((b2 % 2 * 16 + b3 / 16)
                  ∷ (b3 % 16 * 2 + b4 / 128)
                  ∷ (b4 / 4 % 32)
                  ∷ (b4 % 4 * 8)
                  ∷ [])
                (b2 ∷ b3 ∷ b4 ∷ []) (omega arith) k2
                λ c3 k3.
                  decode7 (b2 % 2 * 16 + b3 / 16) c3
                    (((b1 % 8 * 4 + b2 / 64) % 4) * 32 + (b2 / 2 % 32)) b2
                    ((b3 % 16 * 2 + b4 / 128) ∷ (b4 / 4 % 32) ∷ (b4 % 4 * 8) ∷ []) (b3 ∷ b4 ∷ [])
                    (omega arith) k3 (omega arith)
                    λ c4 k4.
                      decode4 (b3 % 16 * 2 + b4 / 128) c4 ((b2 % 2 * 16 + b3 / 16) % 16) b3
                        ((b4 / 4 % 32) ∷ (b4 % 4 * 8) ∷ []) (b4 ∷ []) (omega arith) k4 (omega arith)
                        λ c5 k5.
                          decode1 (b4 / 4 % 32) c5 ((b3 % 16 * 2 + b4 / 128) % 2)
                            ((b4 % 4 * 8) ∷ []) (b4 ∷ []) (omega arith) k5
                            λ c6 k6.
                              decode6 (b4 % 4 * 8) c6
                                (((b3 % 16 * 2 + b4 / 128) % 2) * 32 + (b4 / 4 % 32)) b4 ([]) ([])
                                (omega arith) k6 (omega arith)
                                λ c7 k7. decode_end3 c7 (omega (arith, k7));
}

five-IsGrouped :
    (b1 b2 b3 b4 b5 : ℕ) (rest groups : List ℕ)
    → b1 < 256
    → b2 < 256
    → b3 < 256
    → b4 < 256
    → b5 < 256
    → IsGrouped rest groups
    → IsGrouped (b1 ∷ b2 ∷ b3 ∷ b4 ∷ b5 ∷ rest) (
        (b1 / 8)
        ∷ (b1 % 8 * 4 + b2 / 64)
        ∷ (b2 / 2 % 32)
        ∷ (b2 % 2 * 16 + b3 / 16)
        ∷ (b3 % 16 * 2 + b4 / 128)
        ∷ (b4 / 4 % 32)
        ∷ (b4 % 4 * 8 + b5 / 32)
        ∷ (b5 % 32)
        ∷ groups)
five-IsGrouped b1 b2 b3 b4 b5 rest groups h1 h2 h3 h4 h5 h = record {
  encoded = λ acc u.
      encode0 b1 acc (b2 ∷ b3 ∷ b4 ∷ b5 ∷ rest)
        ((b1 % 8 * 4 + b2 / 64)
          ∷ (b2 / 2 % 32)
          ∷ (b2 % 2 * 16 + b3 / 16)
          ∷ (b3 % 16 * 2 + b4 / 128)
          ∷ (b4 / 4 % 32)
          ∷ (b4 % 4 * 8 + b5 / 32)
          ∷ (b5 % 32)
          ∷ groups)
        h1
        λ a1 e1.
          encode3 b2 a1 (b1 % 8) (b3 ∷ b4 ∷ b5 ∷ rest)
            ((b2 % 2 * 16 + b3 / 16)
              ∷ (b3 % 16 * 2 + b4 / 128)
              ∷ (b4 / 4 % 32)
              ∷ (b4 % 4 * 8 + b5 / 32)
              ∷ (b5 % 32)
              ∷ groups)
            h2 e1
            λ a2 e2.
              encode1 b3 a2 (b2 % 2) (b4 ∷ b5 ∷ rest)
                ((b3 % 16 * 2 + b4 / 128)
                  ∷ (b4 / 4 % 32)
                  ∷ (b4 % 4 * 8 + b5 / 32)
                  ∷ (b5 % 32)
                  ∷ groups)
                h3 e2
                λ a3 e3.
                  encode4 b4 a3 (b3 % 16) (b5 ∷ rest) ((b4 % 4 * 8 + b5 / 32) ∷ (b5 % 32) ∷ groups)
                    h4 e3
                    λ a4 e4. encode2 b5 a4 (b4 % 4) (rest) (groups) h5 e4 λ a5 e5. h.encoded a5 tt;
  decoded = λ acc u.
      decode0 (b1 / 8) acc
        ((b1 % 8 * 4 + b2 / 64)
          ∷ (b2 / 2 % 32)
          ∷ (b2 % 2 * 16 + b3 / 16)
          ∷ (b3 % 16 * 2 + b4 / 128)
          ∷ (b4 / 4 % 32)
          ∷ (b4 % 4 * 8 + b5 / 32)
          ∷ (b5 % 32)
          ∷ groups)
        (b1 ∷ b2 ∷ b3 ∷ b4 ∷ b5 ∷ rest) (omega arith)
        λ c1 k1.
          decode5 (b1 % 8 * 4 + b2 / 64) c1 ((b1 / 8)) b1
            ((b2 / 2 % 32)
              ∷ (b2 % 2 * 16 + b3 / 16)
              ∷ (b3 % 16 * 2 + b4 / 128)
              ∷ (b4 / 4 % 32)
              ∷ (b4 % 4 * 8 + b5 / 32)
              ∷ (b5 % 32)
              ∷ groups)
            (b2 ∷ b3 ∷ b4 ∷ b5 ∷ rest) (omega arith) k1 (omega arith)
            λ c2 k2.
              decode2 (b2 / 2 % 32) c2 ((b1 % 8 * 4 + b2 / 64) % 4)
                ((b2 % 2 * 16 + b3 / 16)
                  ∷ (b3 % 16 * 2 + b4 / 128)
                  ∷ (b4 / 4 % 32)
                  ∷ (b4 % 4 * 8 + b5 / 32)
                  ∷ (b5 % 32)
                  ∷ groups)
                (b2 ∷ b3 ∷ b4 ∷ b5 ∷ rest) (omega arith) k2
                λ c3 k3.
                  decode7 (b2 % 2 * 16 + b3 / 16) c3
                    (((b1 % 8 * 4 + b2 / 64) % 4) * 32 + (b2 / 2 % 32)) b2
                    ((b3 % 16 * 2 + b4 / 128)
                      ∷ (b4 / 4 % 32)
                      ∷ (b4 % 4 * 8 + b5 / 32)
                      ∷ (b5 % 32)
                      ∷ groups)
                    (b3 ∷ b4 ∷ b5 ∷ rest) (omega arith) k3 (omega arith)
                    λ c4 k4.
                      decode4 (b3 % 16 * 2 + b4 / 128) c4 ((b2 % 2 * 16 + b3 / 16) % 16) b3
                        ((b4 / 4 % 32) ∷ (b4 % 4 * 8 + b5 / 32) ∷ (b5 % 32) ∷ groups)
                        (b4 ∷ b5 ∷ rest) (omega arith) k4 (omega arith)
                        λ c5 k5.
                          decode1 (b4 / 4 % 32) c5 ((b3 % 16 * 2 + b4 / 128) % 2)
                            ((b4 % 4 * 8 + b5 / 32) ∷ (b5 % 32) ∷ groups) (b4 ∷ b5 ∷ rest)
                            (omega arith) k5
                            λ c6 k6.
                              decode6 (b4 % 4 * 8 + b5 / 32) c6
                                (((b3 % 16 * 2 + b4 / 128) % 2) * 32 + (b4 / 4 % 32)) b4
                                ((b5 % 32) ∷ groups) (b5 ∷ rest) (omega arith) k6 (omega arith)
                                λ c7 k7.
                                  decode3 (b5 % 32) c7 ((b4 % 4 * 8 + b5 / 32) % 8) b5 (groups)
                                    (rest) (omega arith) k7 (omega arith) λ c8 k8. h.decoded c8 tt;
}

regroup-IsGrouped : (bytes : List ℕ) → All Byte bytes → (groups : List ℕ) × IsGrouped bytes groups
regroup-IsGrouped [] h = ([], nothing-IsGrouped)
regroup-IsGrouped (b1 ∷ []) (h1, h) = (_, one-IsGrouped b1 h1)
regroup-IsGrouped (b1 ∷ b2 ∷ []) (h1, (h2, h)) = (_, two-IsGrouped b1 b2 h1 h2)
regroup-IsGrouped (b1 ∷ b2 ∷ b3 ∷ []) (h1, (h2, (h3, h))) = (_, three-IsGrouped b1 b2 b3 h1 h2 h3)
regroup-IsGrouped (b1 ∷ b2 ∷ b3 ∷ b4 ∷ []) (h1, (h2, (h3, (h4, h)))) =
    (_, four-IsGrouped b1 b2 b3 b4 h1 h2 h3 h4)
regroup-IsGrouped (b1 ∷ b2 ∷ b3 ∷ b4 ∷ b5 ∷ rest) (h1, (h2, (h3, (h4, (h5, h))))) =
    let (groups, grouped) = regroup-IsGrouped rest h in
    (_, five-IsGrouped b1 b2 b3 b4 b5 rest groups h1 h2 h3 h4 h5 grouped)

-- All bytes can be regrouped into groups of five bits, and the strict conversion gives them back.
pub convert_bits-convert_bits :
    (bytes : List ℕ)
    → All Byte bytes
    → (groups : List ℕ) × (convert_bits bytes 8 5 false ≡ some groups)
      × (convert_bits groups 5 8 true ≡ some bytes)
unfolding convert_bits
convert_bits-convert_bits bytes h =
    let (groups, grouped) = regroup-IsGrouped bytes h in
    (groups, grouped.encoded 0 tt, grouped.decoded 0 tt)
