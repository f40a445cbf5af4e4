-- ===== src/Buffered/SplitRuns.antt =====
-- Runs of a commit that is split, and the theorems at concrete inputs.
use rust_peergos_client.Common.{ℕ, ◌≡◌, arith, true, List, [], ◌∷◌, All}
use rust_peergos_client.Multiformats.Multihash.{sha2_256}
use rust_peergos_client.Multiformats.Cid.{Cid, raw}
use rust_peergos_client.Buffered.CidMap.{CidMap}
use rust_peergos_client.Buffered.Order.{InlineBlock}
use rust_peergos_client.Buffered.Groups.{Call, calls_of}
use rust_peergos_client.Buffered.Calls.{IsCall, concat_calls, call_blocks, calls_of-IsCall}

abbrev raw_cid : ℕ → Cid
raw_cid n = record {
  version = 1;
  codec = raw;
  multihash = record { hash_type = sha2_256; hash = n ∷ [] };
}

abbrev raw_block : ℕ → InlineBlock
raw_block n = record { cid = raw_cid n; block = n ∷ []; is_raw = true }

abbrev two : List InlineBlock
two = raw_block 1 ∷ raw_block 2 ∷ []

abbrev left : Call
left = (raw_cid 9, two) ∷ (raw_cid 8, raw_block 3 ∷ []) ∷ []

calls_of-IsCall_example :
    (call_blocks (concat_calls (calls_of left)) ≡ call_blocks left) × All IsCall (calls_of left)
calls_of-IsCall_example = calls_of-IsCall left (
  ((omega arith, omega arith), ((omega arith, omega arith), tt)),
  (((omega arith, omega arith), tt), tt),
)
