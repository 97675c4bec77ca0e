-- ===== src/Zlib.antt =====
-- The functions of zlib that the gzip transformations call, as a parameter. `Stream` is what zlib
-- keeps in a `z_stream`; the pointers and counters of the buffers are arguments and results.
use atscppapi.Common.{ℕ, Bytes}

-- Z_OK, Z_STREAM_END, and any other result.
pub data ZStatus : Type 0 where
  z_ok z_stream_end : ZStatus
  z_error : ℕ → ZStatus

pub data ZFlush : Type 0 where
  z_sync_flush z_finish : ZFlush

-- After a call: `rest` is what is left of the input, `output` what was written to the buffer.
pub record ZCall (Stream : Type 0) : Type 0 where
  pub status : ZStatus
  pub rest : Bytes
  pub output : Bytes
  pub stream : Stream

pub record ZlibApi : Type 1 where
  pub Stream : Type 0
  -- deflateInit2 with the arguments of the source and inflateInit2 with the window bits 31, on a
  -- stream of zeros
  pub deflate_init : ZStatus × Stream
  pub inflate_init : ZStatus × Stream
  -- deflate and inflate on the stream, with the input and the size of the output buffer
  pub deflate : Stream → ZFlush → Bytes → ℕ → ZCall Stream
  pub inflate : Stream → ZFlush → Bytes → ℕ → ZCall Stream
