-- ===== src/Tx/Typed/Fields.antt =====
-- `read_body`, the part of `transaction::hydrate` (include/gs++/transaction.hpp) that reads, on bytes.
use cpp_slp_graph_search.Prelude.{ℕ, ◌^◌, ◌<◌, ◌≡◌, List, arith, All, length}
use cpp_slp_graph_search.Util.Bytes.{Byte}
use cpp_slp_graph_search.Util.Reader.{extract_u32}
use cpp_slp_graph_search.Tx.Hydrate.{
  Body, read_input, read_output, read_body, read_count, read_list, max_tx_size,
}
use cpp_slp_graph_search.Tx.Typed.Readers.{
  Gives, AllFrom, IsOutpoint, IsReadOutput, read_input-Gives, read_output-Gives, read_count-Gives,
  read_list-Gives, u32-Gives, bind_outcome-Gives, checked-Gives,
}

abbrev pub Words : ℕ → Type 0
Words n = n < 2 ^ 32

-- What `read_body` may give.
pub record IsBody (b : Body) : Type 0 where
  pub version : Words b.version
  pub inputs : AllFrom (λ j. IsOutpoint) 0 b.inputs
  pub in_count : length b.inputs < max_tx_size
  pub outputs : AllFrom IsReadOutput 0 b.outputs
  pub out_count : length b.outputs < max_tx_size
  pub lock_time : Words b.lock_time

pub read_body-Gives : (s : List ℕ) → All Byte s → Gives IsBody (read_body s)
unfolding read_body
read_body-Gives s h = checked-Gives IsBody 4 s _ (
    bind_outcome-Gives (λ v. v < 256 ^ 4) IsBody (extract_u32 s) _ (u32-Gives s h)
      λ version s1 hv h1.
        bind_outcome-Gives (λ n. n < max_tx_size) IsBody (read_count s1) _ (read_count-Gives s1 h1)
          λ in_count s2 hi h2.
            bind_outcome-Gives (λ l. (length l ≡ in_count) × AllFrom (λ j. IsOutpoint) 0 l) IsBody
              (read_list (λ i. read_input) in_count 0 s2) _
              (read_list-Gives (λ j. IsOutpoint) (λ i. read_input) in_count 0 s2
                (λ j. read_input-Gives) h2)
              λ inputs s3 hins h3.
                bind_outcome-Gives (λ n. n < max_tx_size) IsBody (read_count s3) _
                  (read_count-Gives s3 h3)
                  λ out_count s4 ho h4.
                    bind_outcome-Gives (λ l. (length l ≡ out_count) × AllFrom IsReadOutput 0 l)
                      IsBody (read_list read_output out_count 0 s4) _
                      (read_list-Gives IsReadOutput read_output out_count 0 s4 read_output-Gives h4)
                      λ outputs s5 houts h5. checked-Gives IsBody 3 s5 _ (
                        bind_outcome-Gives (λ v. v < 256 ^ 4) IsBody (extract_u32 s5) _
                          (u32-Gives s5 h5)
                          λ lock_time s6 ht h6. (
                            record {
                              version = omega (arith, hv);
                              inputs = hins.1;
                              in_count = omega (arith, hins.0, hi);
                              outputs = houts.1;
                              out_count = omega (arith, houts.0, ho);
                              lock_time = omega (arith, ht);
                            },
                            h6,
                          )))
