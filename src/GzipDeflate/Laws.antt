-- ===== src/GzipDeflate/Laws.antt =====
-- What zlib documents of deflate, for src/GzipDeflateTransformation.cc.
use atscppapi.Common.{ℕ, ◌≤◌, ◌<◌, Bytes, ◌≡◌, ◌≢◌, [], ◌++◌, length, ◌⊎◌}
use atscppapi.Zlib.{ZlibApi, ZFlush, z_ok, z_stream_end, z_sync_flush, z_finish}

-- The documented behaviour. `given` is all the output of a stream since its initialization, `taken`
-- all the input that it took; `decoded` is the text that can be had from compressed bytes, and `left`
-- bounds the work before a call that leaves room in its buffer. `IsOpen` says with which flush a
-- stream may be called, and `IsFull` that its last call filled the buffer. A flush may be repeated
-- with no input after a call that filled its buffer, and zlib may then give a further marker; with
-- more than six bytes in the buffer, as zlib asks for, these repetitions end.
pub record Coder (z : ZlibApi) : Type 1 where
  pub given : z.Stream → Bytes
  pub taken : z.Stream → Bytes
  pub decoded : Bytes → Bytes
  pub left : z.Stream → ZFlush → Bytes → ℕ
  pub IsOpen : ZFlush → z.Stream → Type 0
  pub IsFull : z.Stream → Type 0
  -- deflateInit2 that succeeded
  pub init_open : z.deflate_init.0 ≡ z_ok → IsOpen z_sync_flush z.deflate_init.1
  pub init_given : z.deflate_init.0 ≡ z_ok → given z.deflate_init.1 ≡ []
  pub init_taken : z.deflate_init.0 ≡ z_ok → taken z.deflate_init.1 ≡ []
  pub decoded_nil : decoded [] ≡ []
  -- any call: it takes from the input and gives into the buffer
  pub given_added :
      (f : ZFlush) (s : z.Stream) (d : Bytes) (n : ℕ)
      → IsOpen f s
      → given (z.deflate s f d n).stream ≡ given s ++ (z.deflate s f d n).output
  pub taken_added :
      (f : ZFlush) (s : z.Stream) (d : Bytes) (n : ℕ)
      → IsOpen f s
      → taken (z.deflate s f d n).stream ++ (z.deflate s f d n).rest ≡ taken s ++ d
  pub in_room :
      (f : ZFlush) (s : z.Stream) (d : Bytes) (n : ℕ)
      → IsOpen f s
      → length (z.deflate s f d n).output ≤ n
  -- Z_SYNC_FLUSH, with input or after a call that filled its buffer
  pub flush_ok :
      (s : z.Stream) (d : Bytes) (n : ℕ)
      → IsOpen z_sync_flush s
      → 6 < n
      → (d ≢ []) ⊎ IsFull s
      → ((z.deflate s z_sync_flush d n).status ≡ z_ok)
        × IsOpen z_sync_flush (z.deflate s z_sync_flush d n).stream
  pub flush_full :
      (s : z.Stream) (d : Bytes) (n : ℕ)
      → IsOpen z_sync_flush s
      → 6 < n
      → (z.deflate s z_sync_flush d n).status ≡ z_ok
      → length (z.deflate s z_sync_flush d n).output ≡ n
      → IsFull (z.deflate s z_sync_flush d n).stream
        × (left
              (z.deflate s z_sync_flush d n).stream
              z_sync_flush
              (z.deflate s z_sync_flush d n).rest
            < left s z_sync_flush d)
  pub flush_done :
      (s : z.Stream) (d : Bytes) (n : ℕ)
      → IsOpen z_sync_flush s
      → (z.deflate s z_sync_flush d n).status ≡ z_ok
      → length (z.deflate s z_sync_flush d n).output < n
      → ((z.deflate s z_sync_flush d n).rest ≡ [])
        × (decoded (given (z.deflate s z_sync_flush d n).stream)
            ≡ taken (z.deflate s z_sync_flush d n).stream)
  -- Z_FINISH, with no input left: not done yet, or done
  pub finish_open : (s : z.Stream) → IsOpen z_sync_flush s → IsOpen z_finish s
  pub finish_call :
      (s : z.Stream) (n : ℕ)
      → IsOpen z_finish s
      → 6 < n
      → (((z.deflate s z_finish [] n).status ≡ z_ok)
          × IsOpen z_finish (z.deflate s z_finish [] n).stream
          × (left (z.deflate s z_finish [] n).stream z_finish [] < left s z_finish []))
        ⊎ (((z.deflate s z_finish [] n).status ≡ z_stream_end)
            × (decoded (given (z.deflate s z_finish [] n).stream)
                ≡ taken (z.deflate s z_finish [] n).stream))
  pub finish_rest :
      (s : z.Stream) (n : ℕ) → IsOpen z_finish s → (z.deflate s z_finish [] n).rest ≡ []
