-- ===== src/GzipDeflate.antt =====
-- src/GzipDeflateTransformation.cc: a transformation that compresses its input. What it does to its
-- base class, the TransformationPlugin, is the list of the calls that it makes of it.
pub mod Laws
pub mod Chunks
pub mod Finish
use atscppapi.Common.{
  ℕ, zero, suc, ◌+◌, ◌-◌, ◌*◌, Bytes, Bool, true, false, ◌++◌, ◌==◌, Option, none, some, List, [],
  ◌∷◌, ltb, length, if◌then◌else◌,
}
use atscppapi.Loops.{Ended, ended, out_of_fuel}
use atscppapi.Zlib.{
  ZlibApi, ZStatus, z_ok, z_stream_end, z_error, ZFlush, z_sync_flush, z_finish, ZCall,
}
use atscppapi.Transformation.{ClientCall, produces, sets_output_complete}

abbrev pub one_kb : ℕ
one_kb = 1024

-- GzipDeflateTransformationState, and the calls made so far, the first one first. `avail_in` and
-- `next_in` of the stream are `input`.
pub record Deflate (z : ZlibApi) : Type 0 where
  pub stream : z.Stream
  pub input : Bytes
  pub z_stream_initialized : Bool
  pub bytes_produced : ℕ
  pub calls : List ClientCall

module _ {z : ZlibApi} where
  unfoldable pub new : Deflate z
  new = record {
    stream = z.deflate_init.1;
    input = [];
    z_stream_initialized = elim z.deflate_init.0 [ z_ok ↦ true | _ ↦ false ];
    bytes_produced = 0;
    calls = [];
  }

  -- One call of deflate, as the stream records it, with the bytes counted.
  unfoldable pub called : ZCall z.Stream → Deflate z → Deflate z
  called c s = record s {
    stream = c.stream;
    input = c.rest;
    bytes_produced = s.bytes_produced + length c.output;
  }

  unfoldable pub produce : Bytes → Deflate z → Deflate z
  produce d s = record s { calls = s.calls ++ produces d ∷ [] }

  -- What follows the call in the body of the loop in `consume`: whether the loop goes on, and the
  -- state. An error returns with the stream as the call left it, before anything is counted.
  unfoldable pub after_deflate : ZStatus → ℕ → ZCall z.Stream → Deflate z → Bool × Deflate z
  unfolding called produce
  after_deflate z_ok buffer_size c s =
      (buffer_size - length c.output == 0, produce c.output (called c s))
  after_deflate _ buffer_size c s = (false, record s { stream = c.stream; input = c.rest })

  unfoldable pub deflate_block : ℕ → Deflate z → Bool × Deflate z
  unfolding after_deflate
  deflate_block buffer_size s =
      let c = z.deflate s.stream z_sync_flush s.input buffer_size in
      after_deflate c.status buffer_size c s

  unfoldable pub deflate_loop : ℕ → ℕ → Deflate z → Ended (Deflate z)
  deflate_loop zero buffer_size s = out_of_fuel s
  deflate_loop (suc fuel) buffer_size s =
      let (more, s') = deflate_block buffer_size s in
      elim more [ true ↦ deflate_loop fuel buffer_size s' | false ↦ ended s' ]

  unfoldable pub consume : ℕ → Bytes → Deflate z → Ended (Deflate z)
  consume fuel d s =
      let buffer_size = if ltb (length d) one_kb then 2 * one_kb else length d in
      if length d == 0
      then ended s
      else if s.z_stream_initialized
      then deflate_loop fuel buffer_size (record s { input = d })
      else ended s

  -- The same in `handleInputComplete`.
  unfoldable pub after_finish : ZStatus → ZCall z.Stream → Deflate z → Bool × Deflate z
  unfolding called produce
  after_finish z_ok c s = (true, produce c.output (called c s))
  after_finish z_stream_end c s = (false, produce c.output (called c s))
  after_finish (z_error _) c s = (false, called c s)

  unfoldable pub finish_block : Deflate z → Bool × Deflate z
  unfolding after_finish
  finish_block s = let c = z.deflate s.stream z_finish s.input 1024 in after_finish c.status c s

  unfoldable pub finish_loop : ℕ → Deflate z → Ended (Deflate z)
  finish_loop zero s = out_of_fuel s
  finish_loop (suc fuel) s =
      let (more, s') = finish_block s in elim more [ true ↦ finish_loop fuel s' | false ↦ ended s' ]

  unfoldable pub complete_output : Ended (Deflate z) → Ended (Deflate z)
  complete_output (ended s) = ended (record s { calls = s.calls ++ sets_output_complete ∷ [] })
  complete_output (out_of_fuel s) = out_of_fuel s

  unfoldable pub handle_input_complete : ℕ → Deflate z → Ended (Deflate z)
  handle_input_complete fuel s = complete_output (finish_loop fuel s)
