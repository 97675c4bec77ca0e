-- ===== src/GzipDeflate/Finish.antt =====
-- `handleInputComplete`: the stream is finished, and the output ends.
use atscppapi.Common.{
  ℕ, zero, suc, ◌<◌, Bytes, ◌≡◌, refl, sym, ap, ◌∙◌, Bool, true, false, ◌++◌, List, [], ◌∷◌, arith,
  length, append-nil, inl, inr, subst,
}
use atscppapi.Loops.{Ended, ended, out_of_fuel, Returns}
use atscppapi.Zlib.{ZlibApi, z_ok, z_stream_end, z_finish, ZCall}
use atscppapi.Transformation.Tally.{output_of, output_of-append}
use atscppapi.Transformation.{ClientCall, sets_output_complete}
use atscppapi.GzipDeflate.{
  Deflate, called, produce, after_finish, finish_block, finish_loop, handle_input_complete,
  complete_output,
}
use atscppapi.GzipDeflate.Laws.{Coder}
use atscppapi.GzipDeflate.Chunks.{Hands, Coded, produced}

-- All that was handed on was counted, and decompresses to the text.
pub record Complete {z : ZlibApi} (c : Coder z) (text : Bytes) (s : Deflate z) : Type 0 where
  pub decodes : c.decoded (output_of s.calls) ≡ text
  pub counted : s.bytes_produced ≡ length (output_of s.calls)

complete_output-Complete :
    {z : ZlibApi} (c : Coder z) (text : Bytes) (r : Ended (Deflate z))
    → Returns r (Complete c text)
    → Returns (complete_output r) (λ t.
      Complete c text t × ((cs : List ClientCall) × (t.calls ≡ cs ++ sets_output_complete ∷ [])))
unfolding complete_output output_of
complete_output-Complete c text (ended t) h =
    let same =
      output_of-append t.calls (sets_output_complete ∷ []) ∙ append-nil (output_of t.calls) in
    (
      record {
        decodes = ap c.decoded same ∙ h.decodes;
        counted = h.counted ∙ sym (ap length same);
      },
      (t.calls, refl),
    )
complete_output-Complete c text (out_of_fuel t) h = h

module _ {z : ZlibApi} (c : Coder z) where
  -- During the loop.
  record Finishing (text : Bytes) (s : Deflate z) : Type 0 where
    input_taken : s.input ≡ []
    is_open : c.IsOpen z_finish s.stream
    hands : Hands c s
    took : c.taken s.stream ≡ text

  abbrev call_at : Bytes → Deflate z → ZCall z.Stream
  call_at d s = z.deflate s.stream z_finish d 1024

  abbrev after : Deflate z → Deflate z
  after s = produce (call_at s.input s).output (called (call_at s.input s) s)

  abbrev next : ℕ → Bool × Deflate z → Ended (Deflate z)
  next fuel p = elim p.0 [ true ↦ finish_loop fuel p.1 | false ↦ ended p.1 ]

  loop-ok :
      (fuel : ℕ) (s : Deflate z)
      → (call_at s.input s).status ≡ z_ok
      → finish_loop (suc fuel) s ≡ finish_loop fuel (after s)
  unfolding finish_loop finish_block after_finish
  loop-ok fuel s e = ap (λ st. next fuel (after_finish st (call_at s.input s) s)) e

  loop-end :
      (fuel : ℕ) (s : Deflate z)
      → (call_at s.input s).status ≡ z_stream_end
      → finish_loop (suc fuel) s ≡ ended (after s)
  unfolding finish_loop finish_block after_finish
  loop-end fuel s e = ap (λ st. next fuel (after_finish st (call_at s.input s) s)) e

  after-took :
      (text : Bytes) (s : Deflate z)
      → Finishing text s
      → ((call_at s.input s).rest ≡ []) × (c.taken (call_at s.input s).stream ≡ text)
  after-took text s h =
      let no_rest =
        ap (λ d. (call_at d s).rest) h.input_taken ∙ c.finish_rest s.stream 1024 h.is_open in
      let stream = (call_at s.input s).stream in
      (
        no_rest,
        sym (append-nil (c.taken stream))
            ∙ ap (λ r. c.taken stream ++ r) (sym no_rest)
            ∙ c.taken_added z_finish s.stream s.input 1024 h.is_open
            ∙ ap (λ d. c.taken s.stream ++ d) h.input_taken
            ∙ append-nil (c.taken s.stream)
            ∙ h.took,
      )

  after-Complete :
      (text : Bytes) (s : Deflate z)
      → Finishing text s
      → c.decoded (c.given (call_at s.input s).stream) ≡ c.taken (call_at s.input s).stream
      → Complete c text (after s)
  unfolding produce called
  after-Complete text s h e =
      let hands = produced c z_finish s 1024 h.is_open h.hands in
      record {
        decodes = ap c.decoded hands.output ∙ e ∙ (after-took text s h).1;
        counted = hands.counted ∙ sym (ap length hands.output);
      }

  loop-Complete :
      (fuel : ℕ) (text : Bytes) (s : Deflate z)
      → Finishing text s
      → c.left s.stream z_finish [] < fuel
      → Returns (finish_loop fuel s) (Complete c text)
  unfolding produce called
  loop-Complete zero text s h enough = absurd (omega arith)
  loop-Complete (suc fuel) text s h enough =
      let at = sym h.input_taken in
      elim (c.finish_call s.stream 1024 h.is_open (omega arith)) [
        | inl (ok, is_open, less) ↦
            subst (λ r. Returns r (Complete c text))
              (sym (loop-ok fuel s (subst (λ d. (call_at d s).status ≡ z_ok) at ok)))
              (loop-Complete fuel text (after s)
                (record {
                  input_taken = (after-took text s h).0;
                  is_open = subst (λ d. c.IsOpen z_finish (call_at d s).stream) at is_open;
                  hands = produced c z_finish s 1024 h.is_open h.hands;
                  took = (after-took text s h).1;
                })
                (subst (λ d. c.left (call_at d s).stream z_finish [] < fuel) at (omega arith)))
        | inr (done, e) ↦
            subst (λ r. Returns r (Complete c text))
              (sym (loop-end fuel s (subst (λ d. (call_at d s).status ≡ z_stream_end) at done)))
              (after-Complete text s h (
                subst (λ d. c.decoded (c.given (call_at d s).stream) ≡ c.taken (call_at d s).stream)
                  at e))
      ]

  -- Over a zlib that behaves as documented, on an initialized stream that is between two chunks: when
  -- the stream took a text, all that was handed on and counted decompresses to it, and the fuel covers
  -- the work that zlib has to finish, `handleInputComplete` returns; then all that was handed on, which
  -- was counted, decompresses to the text, and the last call completes the output.
  pub handle_input_complete-Complete :
      (fuel : ℕ) (text : Bytes) (s : Deflate z)
      → Coded c text s
      → c.left s.stream z_finish [] < fuel
      → Returns (handle_input_complete fuel s) (λ t.
        Complete c text t × ((cs : List ClientCall) × (t.calls ≡ cs ++ sets_output_complete ∷ [])))
  unfolding handle_input_complete
  handle_input_complete-Complete fuel text s h enough =
      complete_output-Complete c text (finish_loop fuel s) (
        loop-Complete fuel text s
          (record {
            input_taken = h.input_taken;
            is_open = c.finish_open s.stream h.is_open;
            hands = h.hands;
            took = h.took;
          })
          enough)
