-- ===== src/Buffered/Split.antt =====
-- crates/peergos-core/src/buffered.rs: `split`, which cuts a commit that is too big for one call, and the
-- `WriterCommit` of src/bulk.rs. The hash function and `sign_message` of a key are parameters.
use rust_peergos_client.Common.{
  ℕ, suc, zero, ◌+◌, ◌-◌, ◌/◌, ◌%◌, ◌^◌, Bool, true, false, not, ◌&&◌, Option, none, some, List, [],
  ◌∷◌, ◌++◌, Bytes, length, if◌then◌else◌, ltb, leb, ◌==◌, Result, ok, err, ◌>>=◌, ok_or,
}
use rust_peergos_client.Common.Text.{Text}
use rust_peergos_client.Common.Int.{ℤ, pos, negsuc}
use rust_peergos_client.Multiformats.Cid.{Cid, to_bytes}
use rust_peergos_client.Champ.Equal.{eq_cid}
use rust_peergos_client.Buffered.Storage.{BufferError, panicked, PublicKeyHash, build_cid}
use rust_peergos_client.Buffered.Pointers.{WriterUpdate}
use rust_peergos_client.Buffered.Order.{InlineBlock, from_root_first}
use rust_peergos_client.Buffered.Groups.{max_bulk_commit_blocks, max_bulk_inline, Call, calls_of}

pub record SignedPointerUpdate : Type 0 where
  pub writer : PublicKeyHash
  pub signed : Bytes

pub record WriterCommit : Type 0 where
  pub writer : PublicKeyHash
  pub cbor_blocks : List Bytes
  pub raw_blocks : List Bytes
  pub pre_written : List Cid
  pub pointer : Option SignedPointerUpdate
  pub block_list_signature : Option Bytes

abbrev pub sum_bytes : List Bytes → ℕ
sum_bytes [] = 0
sum_bytes (b ∷ bs) = length b + sum_bytes bs

unfoldable pub inline_size : WriterCommit → ℕ
inline_size w = sum_bytes w.cbor_blocks + sum_bytes w.raw_blocks

unfoldable pub block_count : WriterCommit → ℕ
block_count w = length w.cbor_blocks + length w.raw_blocks

-- The blocks at the top that the final call has room for, those left, and the room left.
pub record Top : Type 0 where
  pub top : List InlineBlock
  pub rest : List InlineBlock
  pub budget : ℕ
  pub count_budget : ℕ

unfoldable pub take_top : ℕ → ℕ → List InlineBlock → Top
take_top budget count_budget [] = record {
  top = [];
  rest = [];
  budget = budget;
  count_budget = count_budget;
}
take_top budget count_budget (b ∷ bs) =
    let more = take_top (budget - length b.block) (count_budget - 1) bs in
    if leb (length b.block) budget && ltb 0 count_budget
    then record {
      top = b ∷ more.top;
      rest = more.rest;
      budget = more.budget;
      count_budget = more.count_budget;
    }
    else record { top = []; rest = b ∷ bs; budget = budget; count_budget = count_budget }

-- The bytes of the raw blocks, or of the others.
abbrev pub bytes_of : Bool → List InlineBlock → List Bytes
bytes_of is_raw [] = []
bytes_of is_raw (b ∷ bs) =
    if (if is_raw then b.is_raw else not b.is_raw)
    then b.block ∷ bytes_of is_raw bs
    else bytes_of is_raw bs

abbrev pub with_form : Bool → List InlineBlock → List InlineBlock
with_form is_raw [] = []
with_form is_raw (b ∷ bs) =
    if (if is_raw then b.is_raw else not b.is_raw)
    then b ∷ with_form is_raw bs
    else with_form is_raw bs

unfoldable pub find_signer : PublicKeyHash → List WriterUpdate → Option WriterUpdate
find_signer writer [] = none
find_signer writer (w ∷ ws) =
    let rest = find_signer writer ws in if eq_cid w.writer writer then some w else rest

-- `to_be_bytes` of an `i64`.
unfoldable pub be_bytes : ℕ → ℕ → Bytes
be_bytes zero n = []
be_bytes (suc k) n = be_bytes k (n / 256) ++ ((n % 256) ∷ [])

abbrev pub two_complement : ℤ → ℕ
two_complement (pos n) = n
two_complement (negsuc n) = 2 ^ 64 - 1 - n

abbrev pub sequence_or_zero : Option ℤ → ℤ
sequence_or_zero none = pos 0
sequence_or_zero (some s) = s

unfoldable pub cid_bytes : List Cid → Result BufferError Bytes
cid_bytes [] = ok []
cid_bytes (c ∷ cs) =
    ok_or (to_bytes c) panicked >>= λ first. cid_bytes cs >>= λ rest. ok (first ++ rest)

abbrev pub cids : List InlineBlock → List Cid
cids [] = []
cids (b ∷ bs) = b.cid ∷ cids bs

module _ (sha256 : Bytes → Bytes) (sign : Bytes → Bytes → Result BufferError Bytes)
    (writes : List WriterUpdate) where
  unfoldable pub block_list_payload : List Cid → Option ℤ → Result BufferError Bytes
  unfolding cid_bytes be_bytes
  block_list_payload blocks next_sequence = cid_bytes blocks >>= λ bytes.
      ok (sha256 (bytes ++ be_bytes 8 (two_complement (sequence_or_zero next_sequence))))

  unfoldable pub commit_group : PublicKeyHash × List InlineBlock → Result BufferError WriterCommit
  unfolding find_signer
  commit_group (writer, group) = ok_or (find_signer writer writes) panicked >>= λ w.
      block_list_payload (cids (with_form false group ++ with_form true group)) w.update.sequence
      >>= λ payload. sign w.signer.secret payload >>= λ signature. ok record {
        writer = writer;
        cbor_blocks = bytes_of false group;
        raw_blocks = bytes_of true group;
        pre_written = [];
        pointer = none;
        block_list_signature = some signature;
      }

  unfoldable pub commit_call : Call → Result BufferError (List WriterCommit)
  unfolding commit_group
  commit_call [] = ok []
  commit_call (g ∷ call) = commit_group g >>= λ w. commit_call call >>= λ ws. ok (w ∷ ws)

  unfoldable pub commit_calls : List Call → Result BufferError (List (List WriterCommit))
  unfolding commit_call
  commit_calls [] = ok []
  commit_calls (c ∷ calls) = commit_call c >>= λ ws. commit_calls calls >>= λ rest. ok (ws ∷ rest)

pub record BulkCommit : Type 0 where
  pub tid : Option Text
  pub writers : List WriterCommit

unfoldable pub pre_written_count : List WriterCommit → ℕ
pre_written_count [] = 0
pre_written_count (w ∷ ws) = length w.pre_written + pre_written_count ws

unfoldable pub inline_blocks :
    (Bytes → Bytes) → Bool → List Bytes → Result BufferError (List InlineBlock)
inline_blocks sha256 is_raw [] = ok []
inline_blocks sha256 is_raw (b ∷ bs) = build_cid sha256 b is_raw >>= λ cid.
    inline_blocks sha256 is_raw bs >>= λ rest.
    ok (record { cid = cid; block = b; is_raw = is_raw } ∷ rest)

-- What the final call carries of each writer, and what is left for the calls before it.
unfoldable pub split_writers :
    (Bytes → Bytes)
    → ℕ
    → ℕ
    → List WriterCommit
    → List (Option Cid)
    → Result BufferError (List WriterCommit × Call)
unfolding inline_blocks take_top
split_writers sha256 budget count_budget [] roots = ok ([], [])
split_writers sha256 budget count_budget (w ∷ ws) [] = err panicked
split_writers sha256 budget count_budget (w ∷ ws) (root ∷ roots) =
    inline_blocks sha256 false w.cbor_blocks >>= λ cbor.
    inline_blocks sha256 true w.raw_blocks >>= λ raw.
    let t = take_top budget count_budget (from_root_first (cbor ++ raw) root) in
    split_writers sha256 t.budget t.count_budget ws roots >>= λ (last, deferred). ok (
      record {
        writer = w.writer;
        cbor_blocks = bytes_of false t.top;
        raw_blocks = bytes_of true t.top;
        pre_written = w.pre_written;
        pointer = w.pointer;
        block_list_signature = none;
      }
          ∷ last,
      if length t.rest == 0 then deferred else (w.writer, t.rest) ∷ deferred,
    )

abbrev in_transaction : Text → List (List WriterCommit) → List BulkCommit
in_transaction tid [] = []
in_transaction tid (ws ∷ calls) = record { tid = some tid; writers = ws } ∷ in_transaction tid calls

-- The calls with blocks only, and the final one.
unfoldable pub split :
    (Bytes → Bytes)
    → (Bytes → Bytes → Result BufferError Bytes)
    → List WriterUpdate
    → BulkCommit
    → List (Option Cid)
    → Text
    → Result BufferError (List BulkCommit × BulkCommit)
unfolding split_writers calls_of commit_calls pre_written_count
split sha256 sign writes commit roots tid =
    split_writers sha256 max_bulk_inline (max_bulk_commit_blocks - pre_written_count commit.writers)
      commit.writers roots
    >>= λ (last, deferred). commit_calls sha256 sign writes (calls_of deferred) >>= λ calls.
        ok (in_transaction tid calls, record { tid = commit.tid; writers = last })
