-- ===== src/GzipInflate.antt =====
-- src/GzipInflateTransformation.cc: a transformation that decompresses its input.
pub mod Blocks
pub mod Returned
pub mod Sanity
use atscppapi.Common.{
  ℕ, zero, suc, ◌+◌, ◌-◌, ◌*◌, Bytes, Bool, true, false, ◌++◌, ◌==◌, List, [], ◌∷◌, length,
  if◌then◌else◌,
}
use atscppapi.Loops.{Ended, ended, out_of_fuel}
use atscppapi.Zlib.{ZlibApi, ZStatus, z_ok, z_stream_end, z_error, ZFlush, z_sync_flush, ZCall}
use atscppapi.Transformation.{ClientCall, produces, sets_output_complete}

abbrev pub inflate_scale_factor : ℕ
inflate_scale_factor = 6

-- GzipInflateTransformationState, with `avail_in` and `next_in` of the stream as `input`, and the
-- calls made so far of the base class, the first one first.
pub record Inflate (z : ZlibApi) : Type 0 where
  pub stream : z.Stream
  pub input : Bytes
  pub z_stream_initialized : Bool
  pub bytes_produced : ℕ
  pub calls : List ClientCall

-- `err != Z_STREAM_END`.
unfoldable pub is_not_end : ZStatus → Bool
is_not_end z_stream_end = false
is_not_end z_ok = true
is_not_end (z_error _) = true

module _ {z : ZlibApi} where
  unfoldable pub new_inflate : Inflate z
  new_inflate = record {
    stream = z.inflate_init.1;
    input = [];
    z_stream_initialized = elim z.inflate_init.0 [ z_ok ↦ true | _ ↦ false ];
    bytes_produced = 0;
    calls = [];
  }

  -- The stream after a call of inflate.
  unfoldable pub called : ZCall z.Stream → Inflate z → Inflate z
  called c s = record s { stream = c.stream; input = c.rest }

  -- The block is produced, and then it is counted.
  unfoldable pub produce_block : Bytes → Inflate z → Inflate z
  produce_block d s = record s {
    calls = s.calls ++ produces d ∷ [];
    bytes_produced = s.bytes_produced + length d;
  }

  -- What follows the call in the body of the loop: the value of `err` to go on with, or none after
  -- an error, which returns; and the state.
  unfoldable pub after_inflate : ZStatus → ZCall z.Stream → Inflate z → Bool × Inflate z
  unfolding called produce_block
  after_inflate (z_error _) c s = (false, called c s)
  after_inflate z_ok c s = (true, produce_block c.output (called c s))
  after_inflate z_stream_end c s = (true, produce_block c.output (called c s))

  unfoldable pub inflate_block : ℕ → Inflate z → ZStatus × (Bool × Inflate z)
  unfolding after_inflate
  inflate_block size s =
      let c = z.inflate s.stream z_sync_flush s.input size in (c.status, after_inflate c.status c s)

  unfoldable pub inflate_loop : ℕ → ℕ → ZStatus → Inflate z → Ended (Inflate z)
  unfolding is_not_end
  inflate_loop zero size err s = out_of_fuel s
  inflate_loop (suc fuel) size err s =
      let (err', (goes_on, s')) = inflate_block size s in
      let rest = inflate_loop fuel size err' s' in
      if length s.input == 0
      then ended s
      else if is_not_end err
      then if goes_on then rest else ended s'
      else ended s

  unfoldable pub consume : ℕ → Bytes → Inflate z → Ended (Inflate z)
  consume fuel d s =
      if length d == 0
      then ended s
      else if s.z_stream_initialized
      then inflate_loop fuel (inflate_scale_factor * length d) z_ok (record s { input = d })
      else ended s

  -- The comparison of the result with `bytes_produced` only logs.
  unfoldable pub handle_input_complete : Inflate z → Inflate z
  handle_input_complete s = record s { calls = s.calls ++ sets_output_complete ∷ [] }
