-- ===== src/GzipDeflate/Chunks.antt =====
-- `consume`: the loop of a chunk ends, and all that was handed on can be decompressed.
use atscppapi.Common.{
  ℕ, zero, suc, ◌-◌, ◌*◌, ◌≤◌, ◌<◌, Bytes, ◌≡◌, ◌≢◌, refl, sym, ap, ◌∙◌, true, false, ◌++◌, ◌==◌,
  [], ◌∷◌, arith, length, append-nil, length-append, ◌⊎◌, inl, inr, subst, ltb, if◌then◌else◌,
}
use atscppapi.Loops.{ended, Returns}
use atscppapi.Zlib.{ZlibApi, z_ok, ZFlush, z_sync_flush, ZCall}
use atscppapi.Transformation.{produces}
use atscppapi.Transformation.Tally.{output_of, output_of-append}
use atscppapi.GzipDeflate.{
  Deflate, new, called, produce, after_deflate, deflate_block, deflate_loop, consume, one_kb,
}
use atscppapi.GzipDeflate.Laws.{Coder}

-- Between the calls of deflate: the stream took this much of the text, what it gave was handed on
-- and counted.
pub record Hands {z : ZlibApi} (c : Coder z) (s : Deflate z) : Type 0 where
  pub output : output_of s.calls ≡ c.given s.stream
  pub counted : s.bytes_produced ≡ length (c.given s.stream)

-- Between the chunks: the stream took the text, and what was handed on, all that the stream gave
-- and all that was counted, decompresses to it.
pub record Coded {z : ZlibApi} (c : Coder z) (text : Bytes) (s : Deflate z) : Type 0 where
  pub initialized : s.z_stream_initialized ≡ true
  pub input_taken : s.input ≡ []
  pub is_open : c.IsOpen z_sync_flush s.stream
  pub hands : Hands c s
  pub took : c.taken s.stream ≡ text
  pub decodes : c.decoded (output_of s.calls) ≡ text

module _ {z : ZlibApi} (c : Coder z) where
  -- One call, its output counted and produced.
  pub produced :
      (f : ZFlush) (s : Deflate z) (n : ℕ)
      → c.IsOpen f s.stream
      → Hands c s
      → let call = z.deflate s.stream f s.input n in Hands c (produce call.output (called call s))
  unfolding produce called output_of
  produced f s n o h =
      let call = z.deflate s.stream f s.input n in
      let grown = c.given_added f s.stream s.input n o in
      record {
        output =
            output_of-append s.calls (produces call.output ∷ [])
            ∙ ap (λ d. output_of s.calls ++ d) (append-nil call.output)
            ∙ ap (λ d. d ++ call.output) h.output
            ∙ sym grown;
        counted =
            omega
              (arith, h.counted, ap length grown, length-append {0} (c.given s.stream) call.output);
      }

  -- During the loop of a chunk: the text is what was taken and the rest of the input.
  record Flushing (text : Bytes) (s : Deflate z) : Type 0 where
    initialized : s.z_stream_initialized ≡ true
    is_open : c.IsOpen z_sync_flush s.stream
    hands : Hands c s
    took : c.taken s.stream ++ s.input ≡ text
    again : (s.input ≢ []) ⊎ c.IsFull s.stream

  abbrev flush_call : ℕ → Deflate z → ZCall z.Stream
  flush_call n s = z.deflate s.stream z_sync_flush s.input n

  abbrev after : ℕ → Deflate z → Deflate z
  after n s = produce (flush_call n s).output (called (flush_call n s) s)

  full_again : (n k : ℕ) → k ≡ n → (n - k == 0) ≡ true
  full_again n k e = ground arith

  room_left : (n k : ℕ) → k < n → (n - k == 0) ≡ false
  room_left n k h = ground arith

  full_or_room : (n k : ℕ) → k ≤ n → (k ≡ n) ⊎ (k < n)
  full_or_room n k h = ground arith

  block-ok :
      (n : ℕ) (s : Deflate z)
      → (flush_call n s).status ≡ z_ok
      → deflate_block n s ≡ (n - length (flush_call n s).output == 0, after n s)
  unfolding deflate_block after_deflate
  block-ok n s e = ap (λ st. after_deflate st n (flush_call n s) s) e

  loop-more :
      (fuel n : ℕ) (s : Deflate z)
      → (flush_call n s).status ≡ z_ok
      → length (flush_call n s).output ≡ n
      → deflate_loop (suc fuel) n s ≡ deflate_loop fuel n (after n s)
  unfolding deflate_loop
  loop-more fuel n s ok full =
      ap (λ p. elim p.0 [ true ↦ deflate_loop fuel n p.1 | false ↦ ended p.1 ])
        (block-ok n s ok ∙ ap (λ b. (b, after n s)) (full_again n _ full))

  loop-last :
      (fuel n : ℕ) (s : Deflate z)
      → (flush_call n s).status ≡ z_ok
      → length (flush_call n s).output < n
      → deflate_loop (suc fuel) n s ≡ ended (after n s)
  unfolding deflate_loop
  loop-last fuel n s ok room =
      ap (λ p. elim p.0 [ true ↦ deflate_loop fuel n p.1 | false ↦ ended p.1 ])
        (block-ok n s ok ∙ ap (λ b. (b, after n s)) (room_left n _ room))

  after-Flushing :
      (n : ℕ) (text : Bytes) (s : Deflate z)
      → 6 < n
      → Flushing text s
      → length (flush_call n s).output ≡ n
      → Flushing text (after n s)
  unfolding produce called
  after-Flushing n text s big h full =
      let ok = c.flush_ok s.stream s.input n h.is_open big h.again in
      record {
        initialized = h.initialized;
        is_open = ok.1;
        hands = produced z_sync_flush s n h.is_open h.hands;
        took = c.taken_added z_sync_flush s.stream s.input n h.is_open ∙ h.took;
        again = inr (c.flush_full s.stream s.input n h.is_open big ok.0 full).0;
      }

  after-Coded :
      (n : ℕ) (text : Bytes) (s : Deflate z)
      → 6 < n
      → Flushing text s
      → length (flush_call n s).output < n
      → Coded c text (after n s)
  unfolding produce called
  after-Coded n text s big h room =
      let call = flush_call n s in
      let ok = c.flush_ok s.stream s.input n h.is_open big h.again in
      let (no_rest, text_given) = c.flush_done s.stream s.input n h.is_open ok.0 room in
      let hands = produced z_sync_flush s n h.is_open h.hands in
      let took =
        sym (append-nil (c.taken call.stream))
        ∙ ap (λ r. c.taken call.stream ++ r) (sym no_rest)
        ∙ c.taken_added z_sync_flush s.stream s.input n h.is_open
        ∙ h.took in
      record {
        initialized = h.initialized;
        input_taken = no_rest;
        is_open = ok.1;
        hands = hands;
        took = took;
        decodes = ap c.decoded hands.output ∙ text_given ∙ took;
      }

  loop-Coded :
      (fuel n : ℕ) (text : Bytes) (s : Deflate z)
      → 6 < n
      → Flushing text s
      → c.left s.stream z_sync_flush s.input < fuel
      → Returns (deflate_loop fuel n s) (Coded c text)
  unfolding produce called
  loop-Coded zero n text s big h enough = absurd (omega arith)
  loop-Coded (suc fuel) n text s big h enough =
      let ok = (c.flush_ok s.stream s.input n h.is_open big h.again).0 in
      elim (full_or_room n (length (flush_call n s).output)
        (c.in_room z_sync_flush s.stream s.input n h.is_open)) [
          | inl full ↦
              let less = (c.flush_full s.stream s.input n h.is_open big ok full).1 in
              subst (λ r. Returns r (Coded c text)) (sym (loop-more fuel n s ok full))
                (loop-Coded fuel n text (after n s) big (after-Flushing n text s big h full)
                  (omega arith))
          | inr room ↦
              subst (λ r. Returns r (Coded c text)) (sym (loop-last fuel n s ok room))
                (after-Coded n text s big h room)
        ]

  buffer_big : (d : Bytes) → 6 < (if ltb (length d) one_kb then 2 * one_kb else length d)
  buffer_big d = ground arith

  consume-loop :
      (fuel : ℕ) (b : ℕ) (d : Bytes) (s : Deflate z)
      → s.z_stream_initialized ≡ true
      → consume fuel (b ∷ d) s
        ≡ deflate_loop fuel
            (if ltb (length (b ∷ d)) one_kb then 2 * one_kb else length (b ∷ d))
            (record s { input = b ∷ d })
  unfolding consume
  consume-loop fuel b d s ready = ground arith

  some_input : (b : ℕ) (d : Bytes) → b ∷ d ≢ []
  some_input b d = ground arith

  -- Over a zlib that behaves as documented, on an initialized stream that is between two chunks: when
  -- the stream took a text, all that was handed on and counted decompresses to it, and the fuel covers
  -- the work that zlib has with a chunk, then `consume` of the chunk returns, the stream is between
  -- two chunks again, and all that has been handed on, in order, and counted, decompresses to the text
  -- followed by the chunk.
  pub consume-Coded :
      (fuel : ℕ) (text d : Bytes) (s : Deflate z)
      → Coded c text s
      → c.left s.stream z_sync_flush d < fuel
      → Returns (consume fuel d s) (Coded c (text ++ d))
  unfolding consume
  consume-Coded fuel text [] s h enough = subst (λ t. Coded c t s) (sym (append-nil text)) h
  consume-Coded fuel text (b ∷ d) s h enough =
      let n = if ltb (length (b ∷ d)) one_kb then 2 * one_kb else length (b ∷ d) in
      subst (λ r. Returns r (Coded c (text ++ b ∷ d))) (sym (consume-loop fuel b d s h.initialized))
        (loop-Coded fuel n (text ++ b ∷ d) (record s { input = b ∷ d }) (buffer_big (b ∷ d))
          (record {
            initialized = h.initialized;
            is_open = h.is_open;
            hands = record { output = h.hands.output; counted = h.hands.counted };
            took = ap (λ t. t ++ b ∷ d) h.took;
            again = inl (some_input b d);
          })
          enough)

  -- At the start nothing was handed on.
  pub new-Coded : z.deflate_init.0 ≡ z_ok → Coded c [] (new {z = z})
  unfolding new output_of
  new-Coded ok = record {
    initialized = rw ok refl;
    input_taken = refl;
    is_open = c.init_open ok;
    hands = record { output = sym (c.init_given ok); counted = sym (ap length (c.init_given ok)) };
    took = c.init_taken ok;
    decodes = c.decoded_nil;
  }
